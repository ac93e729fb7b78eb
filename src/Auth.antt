-- ===== src/Auth.antt =====
-- internal/auth: the middlewares that decide who reaches a handler (types.go, middleware.go). How a
-- provider authenticates a request is a parameter; a handler's answer is of any type.
pub mod Access
use cloudberry_k8s.Base.{
  ℕ, Bool, true, false, not, ◌||◌, Option, none, some, String, str_eq, if◌then◌else◌, ltb,
}
use text.Mathlib.Text.{starts_with}

pub data PermissionLevel : Type 0 where
  self_only basic operator_basic operator admin : PermissionLevel

-- The number of a level.
unfoldable pub level_number : PermissionLevel → ℕ
level_number self_only = 0
level_number basic = 1
level_number operator_basic = 2
level_number operator = 3
level_number admin = 4

-- What the middlewares use of an Identity.
pub record Identity : Type 0 where
  pub username : String
  pub permission : PermissionLevel
  pub auth_method : String

-- A request; its identity is the one of its context.
pub record Request : Type 0 where
  pub method : String
  pub path : String
  pub authorization : String
  pub identity : Option Identity

-- What is written: an error with its message, or what the innermost handler answers.
pub data Response (A : Type 0) : Type 0 where
  unauthorized forbidden : String → Response A
  answered : A → Response A

abbrev pub Provider : Type 0
Provider = Request → Option Identity

-- The providers of AuthMiddleware, each of which may be nil.
pub record AuthMiddleware : Type 0 where
  pub basic_provider : Option Provider
  pub oidc_provider : Option Provider

-- `resolveProvider`
unfoldable pub resolve_provider : AuthMiddleware → Request → Option Provider
resolve_provider m r =
    if str_eq r.authorization ""
    then none
    else if starts_with r.authorization "Basic "
    then m.basic_provider
    else if starts_with r.authorization "Bearer "
    then m.oidc_provider
    else none

abbrev pub with_identity : Identity → Request → Request
with_identity identity r = record r { identity = some identity }

abbrev pub is_read_only : String → Bool
is_read_only method = str_eq method "GET" || str_eq method "HEAD" || str_eq method "OPTIONS"

abbrev pub guest : Identity
guest = record { username = "guest"; permission = basic; auth_method = "guest" }

module _ {A : Type 0} where
  abbrev pub after_authenticate : (Request → Response A) → Request → Option Identity → Response A
  after_authenticate next r none = unauthorized "authentication failed"
  after_authenticate next r (some identity) = next (with_identity identity r)

  abbrev pub with_provider : (Request → Response A) → Request → Option Provider → Response A
  with_provider next r none = unauthorized "authentication required"
  with_provider next r (some provider) = after_authenticate next r (provider r)

  -- `Handler`
  unfoldable pub handler : AuthMiddleware → (Request → Response A) → Request → Response A
  handler m next r = with_provider next r (resolve_provider m r)

  -- `GuestHandler`
  unfoldable pub guest_handler :
      AuthMiddleware → (Request → Bool) → (Request → Response A) → Request → Response A
  guest_handler m guest_access_enabled next r =
      if not (str_eq r.authorization "")
      then handler m next r
      else if not (guest_access_enabled r)
      then unauthorized "authentication required"
      else if not (is_read_only r.method)
      then unauthorized "authentication required for write operations"
      else next (with_identity guest r)

  abbrev pub check_permission :
      PermissionLevel → (Request → Response A) → Request → Option Identity → Response A
  check_permission level next r none = unauthorized "not authenticated"
  check_permission level next r (some identity) =
      if ltb (level_number identity.permission) (level_number level)
      then forbidden "insufficient permissions"
      else next r

  -- `RequirePermission`
  unfoldable pub require_permission :
      PermissionLevel → (Request → Response A) → Request → Response A
  require_permission level next r = check_permission level next r r.identity
