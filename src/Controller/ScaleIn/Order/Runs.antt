-- ===== src/Controller/ScaleIn/Order/Runs.antt =====
-- internal/controller/cluster_controller.go: the order of a scale-in over whole histories.
use cloudberry_k8s.Base.{ℕ, true, [], ◌≡◌}
use cloudberry_k8s.Controller.ScaleIn.{ScaleWorld, Faults, reconcile, handle_scale_in}
use cloudberry_k8s.Controller.ScaleIn.Order.{IsOrdered, IsConsistent, IsStored, ordered}
use cloudberry_k8s.Controller.ScaleIn.Order.Steps.{check-IsConsistent, handle_scale_in-IsConsistent}
use cloudberry_k8s.Controller.Types.{absent}

-- What can happen: reconciles and requests with any faults at any time, the reconciles with a
-- database configured, and any change by others of the spec, the status and the StatefulSets.
pub data Run : ScaleWorld → Type 0 where
  fresh : {w : ScaleWorld} → w.log ≡ [] → w.scale_in_state ≡ absent → Run w
  reconciled :
      {w : ScaleWorld} (faults : Faults) (now : ℕ)
      → w.has_database ≡ true
      → Run w
      → Run (reconcile faults now w)
  requested :
      {w : ScaleWorld} (faults : Faults) (now old new : ℕ)
      → Run w
      → Run (handle_scale_in faults now old new w).0
  drifted : {w v : ScaleWorld} → Run w → v.log ≡ w.log → v.scale_in_state ≡ w.scale_in_state → Run v

Run-IsConsistent : {w : ScaleWorld} → Run w → IsConsistent w
unfolding IsConsistent IsOrdered IsStored
Run-IsConsistent (fresh l a) = rw (l, a) (tt, tt)
Run-IsConsistent (reconciled {w} faults now db r) =
    let c = Run-IsConsistent r in check-IsConsistent faults now w.scale_in_state w db c c.1
Run-IsConsistent (requested {w} faults now old new r) =
    handle_scale_in-IsConsistent faults now old new w (Run-IsConsistent r)
Run-IsConsistent (drifted {w} {v} r l a) = rw (l, a) (Run-IsConsistent r)

-- In every history of reconciles with a database, with failures of any calls and changes by others
-- between them, segments are deregistered only after the data was moved off them, and pods are
-- scaled down only after their segments were deregistered, with the same new count.
pub scale_in-IsOrdered : {w : ScaleWorld} → Run w → IsOrdered w.log
scale_in-IsOrdered {w} r = ordered w (Run-IsConsistent r)
