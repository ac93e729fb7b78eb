-- ===== src/Base/Text.antt =====
-- Text where the sources walk it: the codes of a string, and what they use of Go's strings package
-- on them. Letters change case in ASCII alone.
use Prim.Native.Char.{code}
use Prim.Native.Nat.{ℕ, ◌+◌}
use Prim.Native.String.{String}
use mathlib.Core.Bool.{Bool, true, false, ◌&&◌, ◌||◌}
use mathlib.Core.List.{List, [], ◌∷◌}
use mathlib.Core.Path.{◌≡◌, refl}
use mathlib.Core.Logic.{◌↔◌}
use native.Mathlib.Omega.{arith}
use cloudberry_k8s.Base.Tests.{leb, ◌==◌, if◌then◌else◌}

abbrev pub codes : String → List ℕ
codes String.[] = []
codes (String.◌∷◌ c s) = code c ∷ codes s

abbrev pub same : List ℕ → List ℕ → Bool
same [] [] = true
same [] (d ∷ t) = false
same (c ∷ s) [] = false
same (c ∷ s) (d ∷ t) = (c == d) && same s t

-- strings.ToLower
abbrev pub lower_code : ℕ → ℕ
lower_code c = if leb 65 c && leb c 90 then c + 32 else c

abbrev pub to_lower : List ℕ → List ℕ
to_lower [] = []
to_lower (c ∷ s) = lower_code c ∷ to_lower s

-- strings.EqualFold
abbrev pub equal_fold : List ℕ → List ℕ → Bool
equal_fold s t = same (to_lower s) (to_lower t)

-- strings.HasPrefix
abbrev pub has_prefix : List ℕ → List ℕ → Bool
has_prefix s [] = true
has_prefix [] (p ∷ ps) = false
has_prefix (c ∷ s) (p ∷ ps) = (c == p) && has_prefix s ps

-- strings.Contains
abbrev pub contains : List ℕ → List ℕ → Bool
contains [] t = has_prefix [] t
contains (c ∷ s) t = has_prefix (c ∷ s) t || contains s t

abbrev is_space : ℕ → Bool
is_space c = c == 32 || (leb 9 c && leb c 13)

abbrev trim_left : List ℕ → List ℕ
trim_left [] = []
trim_left (c ∷ s) = let rest = trim_left s in if is_space c then rest else c ∷ s

-- Put a code before a text that is trimmed on the right.
abbrev put_trimmed : ℕ → List ℕ → List ℕ
put_trimmed c [] = if is_space c then [] else c ∷ []
put_trimmed c (d ∷ s) = c ∷ d ∷ s

abbrev trim_right : List ℕ → List ℕ
trim_right [] = []
trim_right (c ∷ s) = put_trimmed c (trim_right s)

-- strings.TrimSpace
abbrev pub trim_space : List ℕ → List ℕ
trim_space s = trim_right (trim_left s)

-- One of a list of strings.
abbrev pub elem : List ℕ → List (List ℕ) → Bool
elem s [] = false
elem s (t ∷ ts) = same s t || elem s ts

pub same_iff : (s t : List ℕ) → (same s t ≡ true) ↔ (s ≡ t)
same_iff [] [] = ground arith
same_iff [] (d ∷ t) = ground arith
same_iff (c ∷ s) [] = ground arith
same_iff (c ∷ s) (d ∷ t) = ground (arith, same_iff s t)

pub same_refl : (s : List ℕ) → same s s ≡ true
same_refl s = (same_iff s s).1 refl
