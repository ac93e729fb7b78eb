-- ===== src/Auth/Access.antt =====
-- internal/auth/middleware.go: who reaches a handler behind both middlewares.
use cloudberry_k8s.Base.{
  ◌≤◌, Bool, true, not, Option, none, some, String, str_eq, eq_iff, if_cases, ltb, not-eq_false,
  ◌≡◌, refl, arith,
}
use cloudberry_k8s.Auth.{
  PermissionLevel, level_number, Identity, Request, Response, unauthorized, forbidden, Provider,
  AuthMiddleware, resolve_provider, with_identity, after_authenticate, with_provider, handler,
  is_read_only, guest, guest_handler, require_permission,
}

-- Who a request is taken for: whom the provider named by its header says, or, without a header, the
-- guest, where guests are let in and the request only reads.
pub data IsGranted (m : AuthMiddleware) (enabled : Request → Bool) (r : Request)
    (identity : Identity) : Type 0 where
  by_provider :
      (provider : Provider)
      → resolve_provider m r ≡ some provider
      → provider r ≡ some identity
      → IsGranted m enabled r identity
  as_guest :
      r.authorization ≡ ""
      → enabled r ≡ true
      → is_read_only r.method ≡ true
      → identity ≡ guest
      → IsGranted m enabled r identity

module _ {A : Type 0} (m : AuthMiddleware) (enabled : Request → Bool) (level : PermissionLevel)
    (next : Request → Response A) where
  -- What a request to a guarded handler comes to.
  pub data Outcome (r : Request) : Response A → Type 0 where
    no_identity : (message : String) → Outcome r (unauthorized message)
    no_permission : (message : String) → Outcome r (forbidden message)
    reached :
        (identity : Identity)
        → IsGranted m enabled r identity
        → level_number level ≤ level_number identity.permission
        → Outcome r (next (with_identity identity r))

  permission-Outcome :
      (r : Request) (identity : Identity)
      → IsGranted m enabled r identity
      → Outcome r (require_permission level next (with_identity identity r))
  unfolding require_permission
  permission-Outcome r identity granted =
      if_cases (Outcome r) (ltb (level_number identity.permission) (level_number level)) _ _
        (λ low. no_permission "insufficient permissions")
        (λ high. reached identity granted (ground arith))

  authenticated-Outcome :
      (r : Request) (provider : Provider) (o : Option Identity)
      → resolve_provider m r ≡ some provider
      → provider r ≡ o
      → Outcome r (after_authenticate (require_permission level next) r o)
  authenticated-Outcome r provider none p e = no_identity "authentication failed"
  authenticated-Outcome r provider (some identity) p e =
      permission-Outcome r identity (by_provider provider p e)

  provider-Outcome :
      (r : Request) (o : Option Provider)
      → resolve_provider m r ≡ o
      → Outcome r (with_provider (require_permission level next) r o)
  provider-Outcome r none p = no_identity "authentication required"
  provider-Outcome r (some provider) p = authenticated-Outcome r provider (provider r) p refl

  -- A request to a handler behind GuestHandler and RequirePermission is refused, or it reaches the
  -- handler with an identity that has at least the level required and that the provider of its
  -- header confirmed, or with the guest's, and then it has no header, only reads and guests are let
  -- in.
  pub guarded-Outcome :
      (r : Request) → Outcome r (guest_handler m enabled (require_permission level next) r)
  unfolding guest_handler handler
  guarded-Outcome r =
      if_cases (Outcome r) (not (str_eq r.authorization "")) _ _
        (λ header. provider-Outcome r (resolve_provider m r) refl)
        (λ no_header.
          if_cases (Outcome r) (not (enabled r)) _ _
            (λ closed. no_identity "authentication required")
            (λ open_to_guests.
              if_cases (Outcome r) (not (is_read_only r.method)) _ _
                (λ writes. no_identity "authentication required for write operations")
                (λ reads. permission-Outcome r guest (
                  as_guest ((eq_iff r.authorization "").0 (not-eq_false no_header))
                    (not-eq_false open_to_guests) (not-eq_false reads) refl))))
