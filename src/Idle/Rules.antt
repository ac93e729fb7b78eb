-- ===== src/Idle/Rules.antt =====
-- internal/idle/daemon.go: rules, sessions, `isSessionIdle` and `ParseIdleRules`.
use cloudberry_k8s.Base.{
  String, Bool, true, false, not, ◌&&◌, ◌||◌, List, [], ◌∷◌, Option, none, some, ◌≡◌, ◌⊎◌, ◌↔◌,
  arith, if◌then◌else◌, str_eq, eq_iff,
}
use cloudberry_k8s.Base.Int.{ℤ, ltb_ℤ, ◌-ℤ◌}

-- Times and durations are in nanoseconds.
pub record Session : Type 0 where
  pub pid : ℤ
  pub username : String
  pub state : String
  pub resource_group : String
  pub query_start : ℤ

pub record IdleRule : Type 0 where
  pub name : String
  pub enabled : Bool
  pub resource_group : String
  pub idle_timeout : ℤ
  pub exclude_in_transaction : Bool
  pub terminate_message : String

abbrev pub state_idle : String
state_idle = "idle"

abbrev pub state_active : String
state_active = "active"

abbrev pub state_idle_in_transaction : String
state_idle_in_transaction = "idle in transaction"

abbrev pub state_idle_in_transaction_abort : String
state_idle_in_transaction_abort = "idle in transaction (aborted)"

-- `isSessionIdle`, the early returns and the switch in the source's order. The difference of two times
-- is not saturated at the ends of int64, as Go's is.
unfoldable pub is_session_idle : Session → IdleRule → ℤ → Bool
is_session_idle session rule now =
    let overdue = ltb_ℤ rule.idle_timeout (now -ℤ session.query_start) in
    if not rule.enabled
    then false
    else if not (str_eq rule.resource_group "")
        && not (str_eq session.resource_group rule.resource_group)
    then false
    else if str_eq session.state state_active
    then false
    else if str_eq session.state state_idle_in_transaction
        || str_eq session.state state_idle_in_transaction_abort
    then if rule.exclude_in_transaction then false else overdue
    else if str_eq session.state state_idle
    then overdue
    else false

-- cbv1alpha1.IdleSessionRule
pub record IdleSessionRule : Type 0 where
  pub name : String
  pub enabled : Bool
  pub resource_group : String
  pub idle_timeout : String
  pub exclude_in_transaction : Bool
  pub terminate_message : String

-- `time.ParseDuration` of the standard library is a parameter; `none` stands for its error.
module _ (parse_duration : String → Option ℤ) where
  abbrev pub to_idle_rule : IdleSessionRule → ℤ → IdleRule
  to_idle_rule cr timeout = record {
    name = cr.name;
    enabled = cr.enabled;
    resource_group = cr.resource_group;
    idle_timeout = timeout;
    exclude_in_transaction = cr.exclude_in_transaction;
    terminate_message = cr.terminate_message;
  }

  abbrev pub push_rule : IdleRule → Option (List IdleRule) → Option (List IdleRule)
  push_rule r none = none
  push_rule r (some rs) = some (r ∷ rs)

  -- `ParseIdleRules`: an error at the first timeout that does not parse.
  unfoldable pub parse_idle_rules : List IdleSessionRule → Option (List IdleRule)
  parse_idle_rules [] = some []
  parse_idle_rules (cr ∷ crs) = elim (parse_duration cr.idle_timeout) [
    | none ↦ none
    | some timeout ↦ push_rule (to_idle_rule cr timeout) (parse_idle_rules crs)
  ]

-- What the doc comment of `isSessionIdle` promises, as independent conditions.
abbrev pub InGroup : Session → IdleRule → Type 0
InGroup session rule = (rule.resource_group ≡ "") ⊎ (session.resource_group ≡ rule.resource_group)

abbrev pub IsIdleState : Session → IdleRule → Type 0
IsIdleState session rule =
    (session.state ≡ state_idle)
    ⊎ ((rule.exclude_in_transaction ≡ false)
        × ((session.state ≡ state_idle_in_transaction)
            ⊎ (session.state ≡ state_idle_in_transaction_abort)))

pub record ShouldTerminate (session : Session) (rule : IdleRule) (now : ℤ) : Type 0 where
  pub enabled : rule.enabled ≡ true
  pub in_group : InGroup session rule
  pub idle_state : IsIdleState session rule
  pub overdue : ltb_ℤ rule.idle_timeout (now -ℤ session.query_start) ≡ true

-- `isSessionIdle` says true exactly when the rule is enabled, its group is empty or the session's,
-- the state is "idle", or one of the two "in transaction" states with a rule that does not exclude
-- these, and the time since the last query started is more than the timeout.
pub is_session_idle_iff :
    (session : Session) (rule : IdleRule) (now : ℤ)
    → (is_session_idle session rule now ≡ true) ↔ ShouldTerminate session rule now
unfolding is_session_idle
is_session_idle_iff session rule now = (
  λ h. ground (
    arith,
    eq_iff rule.resource_group "",
    eq_iff session.resource_group rule.resource_group,
    eq_iff session.state state_idle_in_transaction,
    eq_iff session.state state_idle_in_transaction_abort,
    eq_iff session.state state_idle,
  ),
  λ h. ground (
    arith,
    eq_iff rule.resource_group "",
    eq_iff session.resource_group rule.resource_group,
    eq_iff session.state state_active,
    eq_iff session.state state_idle_in_transaction,
    eq_iff session.state state_idle_in_transaction_abort,
    eq_iff session.state state_idle,
    eq_iff state_idle state_active,
    eq_iff state_idle state_idle_in_transaction,
    eq_iff state_idle state_idle_in_transaction_abort,
    eq_iff state_idle_in_transaction state_active,
    eq_iff state_idle_in_transaction_abort state_active,
  ),
)
