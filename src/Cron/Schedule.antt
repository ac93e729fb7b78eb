-- ===== src/Cron/Schedule.antt =====
-- internal/cron/cron.go: schedules and the search for the next run.
use cloudberry_k8s.Base.{
  ℕ, zero, suc, ◌+◌, ◌*◌, ◌/◌, Bool, false, not, ◌&&◌, ◌||◌, Option, none, some, List, [], ◌∷◌,
  if◌then◌else◌, ◌==◌, length,
}
use cloudberry_k8s.Cron.Bytes.{Bytes, fields}
use cloudberry_k8s.Cron.Parse.{FieldBounds, bounds, parse_field, has}

pub record Schedule : Type 0 where
  pub minutes : List ℕ
  pub hours : List ℕ
  pub days : List ℕ
  pub months : List ℕ
  pub weekdays : List ℕ
  pub dom_is_star : Bool
  pub dow_is_star : Bool

-- The errors of Parse: the number of fields, or the field that is invalid.
pub data ParseError : Type 0 where
  field_count : ℕ → ParseError
  invalid_field : ℕ → ParseError

pub data Parsed (A : Type 0) : Type 0 where
  parsed : A → Parsed A
  refused : ParseError → Parsed A

-- The loop of Parse over the fields, the first of which has number i.
unfoldable pub parse_sets : ℕ → List FieldBounds → List Bytes → Parsed (List (List ℕ))
parse_sets i (b ∷ bs) (field ∷ rest) =
    let others = parse_sets (suc i) bs rest in
    elim (parse_field b field) [
      | none ↦ refused (invalid_field i)
      | some set ↦ elim others [ parsed sets ↦ parsed (set ∷ sets) | refused e ↦ refused e ]
    ]
parse_sets i _ _ = parsed []

-- strings.HasPrefix(field, "*")
abbrev starts_with_star : Bytes → Bool
starts_with_star (c ∷ s) = c == 42
starts_with_star [] = false

abbrev nth : {A : Type 0} → A → ℕ → List A → A
nth d n [] = d
nth d zero (x ∷ xs) = x
nth d (suc n) (x ∷ xs) = nth d n xs

abbrev assemble : List Bytes → Parsed (List (List ℕ)) → Parsed Schedule
assemble words (refused e) = refused e
assemble words (parsed sets) = parsed (record {
  minutes = nth [] 0 sets;
  hours = nth [] 1 sets;
  days = nth [] 2 sets;
  months = nth [] 3 sets;
  weekdays = nth [] 4 sets;
  dom_is_star = starts_with_star (nth [] 2 words);
  dow_is_star = starts_with_star (nth [] 4 words);
})

-- `Parse`
unfoldable pub parse : Bytes → Parsed Schedule
parse expr =
    let words = fields expr in
    if length words == 5
    then assemble words (parse_sets 0 bounds words)
    else refused (field_count (length words))

-- What a schedule reads of a time.Time.
pub record Moment : Type 0 where
  pub minute : ℕ
  pub hour : ℕ
  pub day : ℕ
  pub month : ℕ
  pub weekday : ℕ

unfoldable pub day_matches : Schedule → Moment → Bool
day_matches s t =
    let dom = has s.days t.day in
    let dow = has s.weekdays t.weekday in
    if not s.dom_is_star && not s.dow_is_star then dom || dow else dom && dow

unfoldable pub matches : Schedule → Moment → Bool
matches s t =
    if not (has s.minutes t.minute) || not (has s.hours t.hour) || not (has s.months t.month)
    then false
    else day_matches s t

abbrev pub max_search_minutes : ℕ
max_search_minutes = 366 * 24 * 60

-- The calendar of the time's location, a function of the minute that begins.
module _ (calendar : ℕ → Moment) where
  -- The loop of `Next` from minute t on, with n rounds left.
  unfoldable pub search : Schedule → ℕ → ℕ → Option ℕ
  search s zero t = none
  search s (suc n) t =
      let later = search s n (t + 1) in if matches s (calendar t) then some t else later

  -- `Next`: times are in seconds, the result in minutes.
  unfoldable pub next : Schedule → ℕ → Option ℕ
  next s from = search s max_search_minutes (from / 60 + 1)

  abbrev next_of : Parsed Schedule → ℕ → Option ℕ
  next_of (parsed s) from = next s from
  next_of (refused e) from = none

  unfoldable pub next_after : Bytes → ℕ → Option ℕ
  next_after expr from = next_of (parse expr) from
