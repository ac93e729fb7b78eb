-- ===== src/Base/Duration.antt =====
-- Go's time.ParseDuration, on the codes of a string. The nanoseconds of a fraction are rounded down
-- exactly, where Go multiplies float64 numbers.
use Prim.Native.Nat.{ℕ, zero, suc, ◌+◌, ◌-◌, ◌*◌, ◌/◌, ◌^◌}
use mathlib.Core.Bool.{Bool, true, false, not, ◌&&◌, ◌||◌}
use mathlib.Core.List.{List, [], ◌∷◌}
use mathlib.Core.Option.{Option, none, some}
use mathlib.Core.Path.{◌≡◌, refl}
use cloudberry_k8s.Base.Tests.{leb, ltb, ◌==◌, if◌then◌else◌, ◌>>=◌}
use cloudberry_k8s.Base.Text.{codes, same}
use cloudberry_k8s.Base.Int.{ℤ, pos, negsuc}

-- A number's characters, or a unit's: the longest runs of either that the loop consumes in turn.
pub data Run : Type 0 where
  number unit : List ℕ → Run

abbrev is_number_code : ℕ → Bool
is_number_code c = c == 46 || (leb 48 c && leb c 57)

abbrev put_number : ℕ → List Run → List Run
put_number c (number n ∷ rs) = number (c ∷ n) ∷ rs
put_number c rs = number (c ∷ []) ∷ rs

abbrev put_unit : ℕ → List Run → List Run
put_unit c (unit u ∷ rs) = unit (c ∷ u) ∷ rs
put_unit c rs = unit (c ∷ []) ∷ rs

abbrev runs : List ℕ → List Run
runs [] = []
runs (c ∷ s) = let rest = runs s in if is_number_code c then put_number c rest else put_unit c rest

-- A number that was read: how many digits, its whole part, and its fraction over a power of ten.
pub record Number : Type 0 where
  pub digits : ℕ
  pub whole : ℕ
  pub fraction : ℕ
  pub scale : ℕ

-- leadingFraction: digits that no longer fit are dropped.
abbrev read_fraction : Number → Bool → List ℕ → Option Number
read_fraction n full [] = some n
read_fraction n full (c ∷ s) =
    let next = 10 * n.fraction + (c - 48) in
    let fits = not full && leb n.fraction ((2 ^ 63 - 1) / 10) && leb next (2 ^ 63) in
    let grown = record n { digits = suc n.digits; fraction = next; scale = 10 * n.scale } in
    let same_value = record n { digits = suc n.digits } in
    let rest = read_fraction (if fits then grown else same_value) (not fits) s in
    if c == 46 then none else rest

-- leadingInt, and the fraction after a point.
abbrev read_number : Number → List ℕ → Option Number
read_number n [] = some n
read_number n (c ∷ s) =
    let whole =
      read_number (record n { digits = suc n.digits; whole = 10 * n.whole + (c - 48) }) s in
    let fraction = read_fraction n false s in if c == 46 then fraction else whole

abbrev nothing_read : Number
nothing_read = record { digits = 0; whole = 0; fraction = 0; scale = 1 }

-- unitMap, in nanoseconds. The micro sign is U+00B5 or U+03BC.
abbrev unit_of : List ℕ → Option ℕ
unit_of u =
    if same u (codes "ns")
    then some 1
    else if same u (codes "us") || same u (181 ∷ 115 ∷ []) || same u (956 ∷ 115 ∷ [])
    then some (10 ^ 3)
    else if same u (codes "ms")
    then some (10 ^ 6)
    else if same u (codes "s")
    then some (10 ^ 9)
    else if same u (codes "m")
    then some (60 * 10 ^ 9)
    else if same u (codes "h")
    then some (3600 * 10 ^ 9)
    else none

abbrev term : Number → ℕ → Option ℕ
term n u =
    let v = n.whole * u + n.fraction * u / n.scale in
    if n.digits == 0
      || not (leb n.whole (2 ^ 63))
      || not (leb n.whole (2 ^ 63 / u))
      || not (leb v (2 ^ 63))
    then none
    else some v

abbrev bounded_sum : ℕ → ℕ → Option ℕ
bounded_sum v d = if leb (d + v) (2 ^ 63) then some (d + v) else none

abbrev sum_runs : List Run → ℕ → Option ℕ
sum_runs [] d = some d
sum_runs (number n ∷ unit u ∷ rs) d = read_number nothing_read n >>= λ number.
    unit_of u >>= λ size. term number size >>= λ v. bounded_sum v d >>= λ total. sum_runs rs total
sum_runs rs d = none

abbrev signed : Bool → ℕ → Option ℤ
signed true zero = some (pos 0)
signed true (suc d) = some (negsuc d)
signed false d = if ltb d (2 ^ 63) then some (pos d) else none

abbrev parse_unsigned : Bool → List ℕ → Option ℤ
parse_unsigned negative [] = none
parse_unsigned negative (c ∷ s) =
    if same (c ∷ s) (codes "0")
    then some (pos 0)
    else sum_runs (runs (c ∷ s)) 0 >>= λ d. signed negative d

unfoldable pub parse_duration : List ℕ → Option ℤ
parse_duration [] = none
parse_duration (c ∷ s) =
    if c == 45 || c == 43 then parse_unsigned (c == 45) s else parse_unsigned false (c ∷ s)

two_hours : parse_duration (codes "2h") ≡ some (pos (7200 * 10 ^ 9))
unfolding parse_duration
two_hours = refl

one_and_a_half : parse_duration (codes "-1.5m10s") ≡ some (negsuc (100 * 10 ^ 9 - 1))
unfolding parse_duration
one_and_a_half = refl

no_unit : parse_duration (codes "1h30") ≡ none
unfolding parse_duration
no_unit = refl
