-- ===== src/Tests/Auth.antt =====
-- The authentication middlewares on concrete inputs.
use cloudberry_k8s.Base.{Bool, true, none, String, ◌≡◌, refl}
use cloudberry_k8s.Auth.{
  basic, operator, level_number, Request, Response, unauthorized, forbidden, answered,
  AuthMiddleware, guest_handler, require_permission,
}
use cloudberry_k8s.Auth.Access.{Outcome, guarded-Outcome}

abbrev middleware : AuthMiddleware
middleware = record { basic_provider = none; oidc_provider = none }

abbrev everyone : Request → Bool
everyone r = true

abbrev greet : Request → Response String
greet r = answered "hello"

abbrev reading : Request
reading = record { method = "GET"; path = "/clusters"; authorization = ""; identity = none }

guarded-Outcome_example :
    Outcome middleware everyone basic greet reading
      (guest_handler middleware everyone (require_permission basic greet) reading)
guarded-Outcome_example = guarded-Outcome middleware everyone basic greet reading

guest_reads :
    guest_handler middleware everyone (require_permission basic greet) reading ≡ answered "hello"
unfolding guest_handler require_permission level_number
guest_reads = refl

guest_operates :
    guest_handler middleware everyone (require_permission operator greet) reading
    ≡ forbidden "insufficient permissions"
unfolding guest_handler require_permission level_number
guest_operates = refl

guest_writes :
    guest_handler middleware everyone
      (require_permission basic greet)
      (record reading { method = "POST" })
    ≡ unauthorized "authentication required for write operations"
unfolding guest_handler
guest_writes = refl
