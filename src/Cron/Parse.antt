-- ===== src/Cron/Parse.antt =====
-- internal/cron/cron.go: one field of a cron expression. An int is a number below 2 ^ 64 in two's
-- complement.
pub mod Ranges
use cloudberry_k8s.Base.{
  ℕ, zero, suc, ◌+◌, ◌-◌, ◌*◌, ◌%◌, ◌/◌, ◌^◌, Bool, true, false, not, ◌&&◌, ◌||◌, Option, none,
  some, List, [], ◌∷◌, ◌++◌, if◌then◌else◌, ltb, leb, ◌==◌, ◌>>=◌, length,
}
use cloudberry_k8s.Base.Int.{ℤ, pos, negsuc}
use cloudberry_k8s.Cron.Bytes.{Bytes, cut, split, atoi}

-- fieldBounds; the name decides only whether 7 means Sunday.
pub record FieldBounds : Type 0 where
  pub is_day_of_week : Bool
  pub min : ℕ
  pub max : ℕ

abbrev pub bounds : List FieldBounds
bounds =
    record { is_day_of_week = false; min = 0; max = 59 }
    ∷ record { is_day_of_week = false; min = 0; max = 23 }
    ∷ record { is_day_of_week = false; min = 1; max = 31 }
    ∷ record { is_day_of_week = false; min = 1; max = 12 }
    ∷ record { is_day_of_week = true; min = 0; max = 7 }
    ∷ []

-- The test of `parseBounded` on the result of Atoi.
abbrev in_bounds : FieldBounds → Option ℤ → Option ℕ
in_bounds b (some (pos v)) = if ltb v b.min || ltb b.max v then none else some v
in_bounds b _ = none

unfoldable pub parse_bounded : FieldBounds → Bytes → Option ℕ
parse_bounded b s = in_bounds b (atoi s)

abbrev single : Option ℕ → Option (ℕ × ℕ)
single none = none
single (some v) = some (v, v)

abbrev ordered : Option ℕ → Option ℕ → Option (ℕ × ℕ)
ordered (some lo) (some hi) = if ltb hi lo then none else some (lo, hi)
ordered _ _ = none

abbrev resolve : FieldBounds → Bytes → Option Bytes → Option (ℕ × ℕ)
resolve b lo none = single (parse_bounded b lo)
resolve b lo (some hi) = ordered (parse_bounded b lo) (parse_bounded b hi)

abbrev is_star : Bytes → Bool
is_star (c ∷ []) = c == 42
is_star _ = false

unfoldable pub parse_range : FieldBounds → Bytes → Option (ℕ × ℕ)
parse_range b spec =
    let parts = cut 45 spec in
    if is_star spec then some (b.min, b.max) else resolve b parts.0 parts.1

abbrev positive : Option ℤ → Option ℕ
positive (some (pos (suc n))) = some (suc n)
positive _ = none

abbrev step_of : Option Bytes → Option ℕ
step_of none = some 1
step_of (some s) = positive (atoi s)

abbrev with_step : Bytes → Option ℕ → Option (Bytes × ℕ)
with_step spec none = none
with_step spec (some n) = some (spec, n)

unfoldable pub split_step : Bytes → Option (Bytes × ℕ)
split_step part = let parts = cut 47 part in with_step parts.0 (step_of parts.1)

-- v <= hi on signed ints
abbrev pub signed_leb : ℕ → ℕ → Bool
signed_leb v hi = leb ((v + 2 ^ 63) % 2 ^ 64) ((hi + 2 ^ 63) % 2 ^ 64)

abbrev pub normalize_day : FieldBounds → ℕ → ℕ
normalize_day b v = if b.is_day_of_week && v == 7 then 0 else v

-- The loop of `parsePart`: the values that it inserts, the newest last.
unfoldable pub insert_values : ℕ → FieldBounds → ℕ → ℕ → ℕ → List ℕ
insert_values zero b v hi step = []
insert_values (suc fuel) b v hi step =
    let rest = insert_values fuel b ((v + step) % 2 ^ 64) hi step in
    if signed_leb v hi then normalize_day b v ∷ rest else []

-- No loop makes more rounds than this, as long as v + step does not overflow.
abbrev pub loop_fuel : ℕ
loop_fuel = 128

-- A map[int]bool whose values are all true, as the list of its keys.
unfoldable pub has : List ℕ → ℕ → Bool
has [] v = false
has (k ∷ set) v = k == v || has set v

-- `parsePart`: what it adds to the set.
unfoldable pub parse_part : FieldBounds → Bytes → Option (List ℕ)
parse_part b part = do
  spec ← split_step part
  range ← parse_range b spec.0
  some (insert_values loop_fuel b range.0 range.1 spec.1)

unfoldable pub parse_parts : FieldBounds → List Bytes → Option (List ℕ)
parse_parts b [] = some []
parse_parts b (part ∷ parts) = do
  values ← parse_part b part
  rest ← parse_parts b parts
  some (values ++ rest)

abbrev non_empty : List ℕ → Option (List ℕ)
non_empty [] = none
non_empty (v ∷ set) = some (v ∷ set)

unfoldable pub parse_field : FieldBounds → Bytes → Option (List ℕ)
parse_field b field =
    if length field == 0 then none else do set ← parse_parts b (split 44 field); non_empty set
