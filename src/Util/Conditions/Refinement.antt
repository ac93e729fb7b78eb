-- ===== src/Util/Conditions/Refinement.antt =====
-- internal/util/conditions.go: runs of SetCondition and RemoveCondition, against a map by type.
use cloudberry_k8s.Base.{
  ℕ, String, Option, none, some, List, [], ◌∷◌, ◌≡◌, refl, ap, str_eq, if◌then◌else◌, ◌∙◌,
}
use cloudberry_k8s.Util.Conditions.{
  Condition, condition_true, condition_false, set_condition, find_condition, remove_condition,
  is_condition_true, is_condition_false, has_status, transition_time, find_condition-set_condition,
  find_condition-remove_condition,
}

-- SetCondition with its time, type, status, reason and message, or RemoveCondition of a type.
pub data Update : Type 0 where
  sets : ℕ → String → String → String → String → Update
  removes : String → Update

unfoldable pub call : Update → List Condition → List Condition
call (sets now t status reason message) cs = set_condition now t status reason message cs
call (removes t) cs = remove_condition cs t

abbrev pub calls : List Update → List Condition → List Condition
calls [] cs = cs
calls (c ∷ rest) cs = calls rest (call c cs)

-- What a list promises: at most one condition of each type.
abbrev pub View : Type 0
View = String → Option Condition

abbrev set_view : ℕ → String → String → String → String → View → View
set_view now t status reason message m u =
    if str_eq t u
    then some (record {
      type = t;
      status = status;
      reason = reason;
      message = message;
      last_transition_time = transition_time now status (m t);
    })
    else m u

abbrev pub call_view : Update → View → View
call_view (sets now t status reason message) m = set_view now t status reason message m
call_view (removes t) m = λ u. if str_eq t u then none else m u

abbrev pub replay : List Update → View → View
replay [] m = m
replay (c ∷ rest) m = replay rest (call_view c m)

call_refines :
    (c : Update) (cs : List Condition) (u : String)
    → find_condition (call c cs) u ≡ call_view c (find_condition cs) u
unfolding call
call_refines (sets now t status reason message) cs u =
    find_condition-set_condition now t status reason message u cs
call_refines (removes t) cs u = find_condition-remove_condition cs t u

-- A call of a view depends on what the view says alone.
call_view_ext :
    (c : Update) (m n : View)
    → ((u : String) → m u ≡ n u)
    → (u : String) → call_view c m u ≡ call_view c n u
call_view_ext (sets now t status reason message) m n same u = rw (same t, same u) refl
call_view_ext (removes t) m n same u = rw (same u) refl

replay_ext :
    (cs : List Update) (m n : View)
    → ((u : String) → m u ≡ n u)
    → (u : String) → replay cs m u ≡ replay cs n u
replay_ext [] m n same u = same u
replay_ext (c ∷ rest) m n same u =
    replay_ext rest (call_view c m) (call_view c n) (call_view_ext c m n same) u

-- What a reader of a list is told of a type, by the three functions that read it.
abbrev pub Reads : List Condition → Option Condition → String → Type 0
Reads cs seen u =
    (find_condition cs u ≡ seen)
    × (is_condition_true cs u ≡ has_status condition_true seen)
    × (is_condition_false cs u ≡ has_status condition_false seen)

calls_refine :
    (rest : List Update) (cs : List Condition) (u : String)
    → find_condition (calls rest cs) u ≡ replay rest (find_condition cs) u
calls_refine [] cs u = refl
calls_refine (c ∷ rest) cs u =
    calls_refine rest (call c cs) u
    ∙ replay_ext rest (find_condition (call c cs)) (call_view c (find_condition cs))
        (call_refines c cs) u

-- After any run of SetCondition and RemoveCondition on a list, FindCondition, IsConditionTrue and
-- IsConditionFalse read what the same run leaves of a map from types to conditions, which begins as
-- what FindCondition says of the list.
pub calls-Reads :
    (rest : List Update) (cs : List Condition) (u : String)
    → Reads (calls rest cs) (replay rest (find_condition cs) u) u
unfolding is_condition_true is_condition_false
calls-Reads rest cs u =
    let read = calls_refine rest cs u in
    (read, ap (has_status condition_true) read, ap (has_status condition_false) read)
