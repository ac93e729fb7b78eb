-- ===== src/Controller/Sts.antt =====
-- internal/controller/cluster_controller.go: the helpers on StatefulSets.
use cloudberry_k8s.Base.{ℕ, Bool, true, false, ◌&&◌, Option, none, some, if◌then◌else◌, ◌==◌, leb}
use cloudberry_k8s.Controller.Types.{StatefulSet}

-- Does a call to the API server fail, other than by "not found"?
pub record StsFaults : Type 0 where
  pub get_fails : Bool
  pub update_fails : Bool
  pub check_fails : Bool

abbrev pub is_replicas : Option ℕ → ℕ → Bool
is_replicas none n = false
is_replicas (some k) n = k == n

-- `scaleStatefulSet`: the object after it, and whether it returns an error.
unfoldable pub scale_stateful_set : StsFaults → ℕ → Option StatefulSet → Option StatefulSet × Bool
scale_stateful_set faults n none = (none, faults.get_fails)
scale_stateful_set faults n (some sts) =
    if faults.get_fails
    then (some sts, true)
    else if is_replicas sts.replicas n
    then (some sts, false)
    else if faults.update_fails
    then (some sts, true)
    else (some (record sts { replicas = some n }), false)

-- `isStatefulSetAtScale`; what does not exist is at scale.
unfoldable pub is_stateful_set_at_scale : Bool → ℕ → Option StatefulSet → Bool
is_stateful_set_at_scale get_fails n none = if get_fails then false else true
is_stateful_set_at_scale get_fails n (some sts) =
    if get_fails
    then false
    else if n == 0
    then sts.status_replicas == 0
    else leb n sts.ready_replicas

abbrev desired_replicas : Option ℕ → ℕ
desired_replicas none = 1
desired_replicas (some n) = n

-- `isStatefulSetReady`
unfoldable pub is_stateful_set_ready : Bool → Option StatefulSet → Bool
is_stateful_set_ready get_fails none = if get_fails then false else true
is_stateful_set_ready get_fails (some sts) =
    if get_fails
    then false
    else leb (desired_replicas sts.replicas) sts.ready_replicas
      && leb (desired_replicas sts.replicas) sts.updated_replicas
