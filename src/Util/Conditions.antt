-- ===== src/Util/Conditions.antt =====
-- internal/util/conditions.go: the list-map of status conditions, keyed by type.
pub mod Refinement
use cloudberry_k8s.Base.{
  ℕ, String, Bool, false, not, List, [], ◌∷◌, Option, none, some, ◌≡◌, refl, arith, if◌then◌else◌,
  str_eq, eq_iff,
}

-- metav1.Condition; a time is a number of seconds.
pub record Condition : Type 0 where
  pub type : String
  pub status : String
  pub reason : String
  pub message : String
  pub last_transition_time : ℕ

abbrev pub condition_true : String
condition_true = "True"

abbrev pub condition_false : String
condition_false = "False"

module _ (now : ℕ) (cond_type status reason message : String) where
  -- What `SetCondition` makes of an entry of the same type.
  abbrev pub update_condition : Condition → Condition
  update_condition c =
      if str_eq c.status status then record c { reason = reason; message = message } else record c {
        status = status;
        reason = reason;
        message = message;
        last_transition_time = now;
      }

  abbrev pub new_condition : Condition
  new_condition = record {
    type = cond_type;
    status = status;
    reason = reason;
    message = message;
    last_transition_time = now;
  }

  -- `SetCondition`: the loop returns at the first entry of the type, and appends if there is none.
  unfoldable pub set_condition : List Condition → List Condition
  set_condition [] = new_condition ∷ []
  set_condition (c ∷ cs) =
      if not (str_eq c.type cond_type) then c ∷ set_condition cs else update_condition c ∷ cs

unfoldable pub find_condition : List Condition → String → Option Condition
find_condition [] cond_type = none
find_condition (c ∷ cs) cond_type =
    if str_eq c.type cond_type then some c else find_condition cs cond_type

abbrev pub has_status : String → Option Condition → Bool
has_status status none = false
has_status status (some c) = str_eq c.status status

unfoldable pub is_condition_true : List Condition → String → Bool
is_condition_true cs cond_type = has_status condition_true (find_condition cs cond_type)

unfoldable pub is_condition_false : List Condition → String → Bool
is_condition_false cs cond_type = has_status condition_false (find_condition cs cond_type)

unfoldable pub remove_condition : List Condition → String → List Condition
remove_condition [] cond_type = []
remove_condition (c ∷ cs) cond_type =
    if not (str_eq c.type cond_type)
    then c ∷ remove_condition cs cond_type
    else remove_condition cs cond_type

-- When the condition last changed its status, after a call with `status` at `now`.
abbrev pub transition_time : ℕ → String → Option Condition → ℕ
transition_time now status none = now
transition_time now status (some c) = if str_eq c.status status then c.last_transition_time else now

-- After a set, the condition of that type has the given status, reason and message, with a
-- transition time that moves only when the status does; every other type reads as before.
pub find_condition-set_condition :
    (now : ℕ) (t status reason message u : String) (cs : List Condition)
    → find_condition (set_condition now t status reason message cs) u ≡ (
        if str_eq t u
        then some (record {
          type = t;
          status = status;
          reason = reason;
          message = message;
          last_transition_time = transition_time now status (find_condition cs t);
        })
        else find_condition cs u)
unfolding set_condition find_condition
find_condition-set_condition now t status reason message u [] = ground arith
find_condition-set_condition now t status reason message u (c ∷ cs) = ground (
  arith,
  eq_iff c.type t,
  eq_iff c.type u,
  eq_iff t u,
  eq_iff c.status status,
  find_condition-set_condition now t status reason message u cs,
)

-- A removed type is not found, and every other type reads as before.
pub find_condition-remove_condition :
    (cs : List Condition) (t u : String)
    → find_condition (remove_condition cs t) u ≡ (if str_eq t u then none else find_condition cs u)
unfolding remove_condition find_condition
find_condition-remove_condition [] t u = ground arith
find_condition-remove_condition (c ∷ cs) t u =
    ground
      (arith, eq_iff c.type t, eq_iff c.type u, eq_iff t u, find_condition-remove_condition cs t u)

-- Setting a condition again with the same status, reason and message changes nothing, also later:
-- a steady reconcile loop does not move the transition time.
pub set_condition_idem :
    (now later : ℕ) (t status reason message : String) (cs : List Condition)
    → set_condition later t status reason message (set_condition now t status reason message cs)
      ≡ set_condition now t status reason message cs
unfolding set_condition
set_condition_idem now later t status reason message [] =
    ground (arith, eq_iff t t, eq_iff status status)
set_condition_idem now later t status reason message (c ∷ cs) = ground (
  arith,
  eq_iff c.type t,
  eq_iff c.status status,
  eq_iff status status,
  set_condition_idem now later t status reason message cs,
)

-- No two conditions of a list have the same type.
abbrev pub IsDistinct : List Condition → Type 0
IsDistinct [] = Unit
IsDistinct (c ∷ cs) = (find_condition cs c.type ≡ none) × IsDistinct cs

-- Setting a condition keeps the types distinct.
pub set_condition-IsDistinct :
    (now : ℕ) (t status reason message : String) (cs : List Condition)
    → IsDistinct cs
    → IsDistinct (set_condition now t status reason message cs)
unfolding set_condition
set_condition-IsDistinct now t status reason message [] h = (unfold find_condition in refl, tt)
set_condition-IsDistinct now t status reason message (c ∷ cs) h = ground (
  arith,
  eq_iff c.type t,
  eq_iff t c.type,
  find_condition-set_condition now t status reason message c.type cs,
  set_condition-IsDistinct now t status reason message cs,
)
