-- ===== src/Cron/Bytes.antt =====
-- internal/cron/cron.go: what it uses of Go's strings and strconv. A string is its list of bytes,
-- taken to be ASCII where the code looks for white space.
use cloudberry_k8s.Base.{
  ℕ, zero, suc, ◌+◌, ◌-◌, ◌*◌, ◌^◌, Bool, true, false, not, ◌&&◌, ◌||◌, Option, none, some, List,
  [], ◌∷◌, if◌then◌else◌, ltb, leb, ◌==◌,
}
use cloudberry_k8s.Base.Int.{ℤ, pos, negsuc}

abbrev pub Bytes : Type 0
Bytes = List ℕ

abbrev is_space : ℕ → Bool
is_space c = c == 32 || (leb 9 c && leb c 13)

-- Put a byte before the words of what follows it, which begins with a word or not.
abbrev put_byte : ℕ → Bool → List Bytes → List Bytes
put_byte c true (w ∷ ws) = (c ∷ w) ∷ ws
put_byte c true [] = (c ∷ []) ∷ []
put_byte c false ws = (c ∷ []) ∷ ws

abbrev begins_word : Bytes → Bool
begins_word [] = false
begins_word (c ∷ s) = not (is_space c)

-- strings.Fields
unfoldable pub fields : Bytes → List Bytes
fields [] = []
fields (c ∷ s) = let rest = fields s in if is_space c then rest else put_byte c (begins_word s) rest

-- strings.Cut at a byte: what stands before it, and what after it where it occurs.
unfoldable pub cut : ℕ → Bytes → Bytes × Option Bytes
cut sep [] = ([], none)
cut sep (c ∷ s) = let rest = cut sep s in if c == sep then ([], some s) else (c ∷ rest.0, rest.1)

abbrev push_byte : ℕ → List Bytes → List Bytes
push_byte c [] = (c ∷ []) ∷ []
push_byte c (w ∷ ws) = (c ∷ w) ∷ ws

-- strings.Split at a byte
unfoldable pub split : ℕ → Bytes → List Bytes
split sep [] = [] ∷ []
split sep (c ∷ s) = let rest = split sep s in if c == sep then [] ∷ rest else push_byte c rest

-- The value of a string of decimal digits, read from the left.
unfoldable pub digits : ℕ → Bytes → Option ℕ
digits acc [] = some acc
digits acc (c ∷ s) =
    let rest = digits (10 * acc + (c - 48)) s in if leb 48 c && leb c 57 then rest else none

abbrev at_least_one : Bytes → Option ℕ
at_least_one [] = none
at_least_one (c ∷ s) = digits 0 (c ∷ s)

abbrev non_negative : Option ℕ → Option ℤ
non_negative none = none
non_negative (some n) = if ltb n (2 ^ 63) then some (pos n) else none

abbrev negative : Option ℕ → Option ℤ
negative none = none
negative (some zero) = some (pos 0)
negative (some (suc n)) = if ltb n (2 ^ 63) then some (negsuc n) else none

-- strconv.Atoi
unfoldable pub atoi : Bytes → Option ℤ
atoi [] = none
atoi (c ∷ s) =
    if c == 45
    then negative (at_least_one s)
    else non_negative (at_least_one (if c == 43 then s else c ∷ s))
