-- ===== src/JobMarkers/Token.antt =====
-- internal/controller/restore_partial.go and backup_timestamp.go: a marker in the tail of a log.
use cloudberry_k8s.Base.{ℕ, Bool, false, List, [], ◌∷◌, ◌≡◌}

-- The text goes on with a code that a token does not have, or it ends.
abbrev pub Ends : (ℕ → Bool) → List ℕ → Type 0
Ends ok [] = Unit
Ends ok (c ∷ s) = ok c ≡ false
