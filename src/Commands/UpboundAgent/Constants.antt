-- ===== src/Commands/UpboundAgent/Constants.antt =====
-- The messages of the errors of cmd/upbound-agent/main.go.
use universal_crossplane.Base.{String}

abbrev pub err_malformed_cp_token : String
err_malformed_cp_token = "malformed control plane token"

abbrev pub err_cp_token_no_subject_key : String
err_cp_token_no_subject_key = "failed to get value for key \"sub\""

abbrev pub err_cp_token_subject_is_not_string : String
err_cp_token_subject_is_not_string = "failed to parse value for key \"sub\" as a string"

abbrev pub err_cp_id_in_token_not_valid_uuid : String
err_cp_id_in_token_not_valid_uuid = "control plane id in token is not a valid UUID: %s"

abbrev pub err_failed_to_get_kube_system_ns : String
err_failed_to_get_kube_system_ns = "failed to get kube-system namespace"

abbrev pub err_kube_system_uid_empty : String
err_kube_system_uid_empty = "metadata.uid of kube-system namespace is empty"
