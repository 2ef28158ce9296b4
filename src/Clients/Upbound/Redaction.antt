-- ===== src/Clients/Upbound/Redaction.antt =====
-- What the debug log of the client shows.
use universal_crossplane.Base.{String, ◌≡◌, refl}
use universal_crossplane.Base.Dict.{insert-insert}
use universal_crossplane.Agent.Header.{Header, canonical_key, set}
use universal_crossplane.Clients.Upbound.{redacted, on_request_log}

set-set : (k v v' : String) (h : Header) → set k v (set k v' h) ≡ set k v h
unfolding set
set-set k v v' h = insert-insert (canonical_key k) _ _ h

-- The log of a request is the same whatever its authorization header and its body are.
pub on_request_log-same :
    (h : Header) (token token' body body' : String)
    → on_request_log (record { header = set "Authorization" token h; body = body })
      ≡ on_request_log (record { header = set "Authorization" token' h; body = body' })
unfolding on_request_log
on_request_log-same h token token' body body' =
    rw (set-set "Authorization" redacted token h, set-set "Authorization" redacted token' h) refl
