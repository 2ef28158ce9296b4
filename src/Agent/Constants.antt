-- ===== src/Agent/Constants.antt =====
-- Paths and names of internal/upboundagent/proxy.go.
use universal_crossplane.Base.{String}

abbrev pub readyness_handler_path : String
readyness_handler_path = "/readyz"

abbrev pub liveness_handler_path : String
liveness_handler_path = "/livez"

abbrev pub k8s_handler_path : String
k8s_handler_path = "/k8s/*"

abbrev pub xgql_handler_path : String
xgql_handler_path = "/query"

abbrev pub proxy_path_arg : String
proxy_path_arg = "*"

abbrev pub header_authorization : String
header_authorization = "Authorization"

abbrev pub service_xgql : String
service_xgql = "xgql"
