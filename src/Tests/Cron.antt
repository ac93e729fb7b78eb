-- ===== src/Tests/Cron.antt =====
-- Cron expressions on concrete inputs.
use cloudberry_k8s.Base.{
  ℕ, true, false, some, none, List, [], ◌∷◌, ◌%◌, ◌/◌, ◌+◌, ◌≡◌, ◌↔◌, refl, arith,
}
use cloudberry_k8s.Cron.Bytes.{Bytes, cut, digits, atoi}
use cloudberry_k8s.Cron.Parse.{
  FieldBounds, has, split_step, parse_range, parse_bounded, parse_part, insert_values,
}
use cloudberry_k8s.Cron.Schedule.{Moment, Schedule, next, search, matches, day_matches}
use cloudberry_k8s.Cron.Search.{IsNext, next-IsNext}
use cloudberry_k8s.Cron.Values.{Selects, parse_part_iff}

abbrev minute_field : FieldBounds
minute_field = record { is_day_of_week = false; min = 0; max = 59 }

-- "5-59/20"
abbrev every_twenty : Bytes
every_twenty = 53 ∷ 45 ∷ 53 ∷ 57 ∷ 47 ∷ 50 ∷ 48 ∷ []

abbrev five_to_end : Bytes
five_to_end = 53 ∷ 45 ∷ 53 ∷ 57 ∷ []

every_twenty-split : split_step every_twenty ≡ some (five_to_end, 20)
unfolding split_step cut atoi digits
every_twenty-split = refl

five_to_end-range : parse_range minute_field five_to_end ≡ some (5, 59)
unfolding parse_range parse_bounded cut atoi digits
five_to_end-range = refl

parse_part_iff_example :
    (values : List ℕ) × (parse_part minute_field every_twenty ≡ some values)
    × ((x : ℕ) → (has values x ≡ true) ↔ Selects minute_field 5 59 20 x)
parse_part_iff_example =
    parse_part_iff minute_field every_twenty five_to_end 20 5 59 (omega arith) (omega arith)
      every_twenty-split five_to_end-range (omega arith)

every_twenty_values : parse_part minute_field every_twenty ≡ some (5 ∷ 25 ∷ 45 ∷ [])
unfolding parse_part split_step parse_range parse_bounded cut atoi digits insert_values
every_twenty_values = refl

-- A step next to the largest int makes v + step wrap around: "5-59/9223372036854775806" selects
-- minute 1.
wrapped_step : has (insert_values 4 minute_field 5 59 9223372036854775806) 1 ≡ true
unfolding insert_values has
wrapped_step = refl

-- A day of 24 hours of 60 minutes, the first of a month.
abbrev calendar : ℕ → Moment
calendar t = record {
  minute = t % 60;
  hour = (t / 60) % 24;
  day = 1 + t / 1440;
  month = 1;
  weekday = (t / 1440) % 7;
}

abbrev at_one : Schedule
at_one = record {
  minutes = 0 ∷ [];
  hours = 1 ∷ [];
  days = 1 ∷ [];
  months = 1 ∷ [];
  weekdays = 0 ∷ [];
  dom_is_star = true;
  dow_is_star = true;
}

next-IsNext_example : (next calendar at_one 59 ≡ some 60) ↔ IsNext calendar at_one 59 60
next-IsNext_example = next-IsNext calendar at_one 59 60

-- The time itself is never the answer, though the schedule matches it.
strictly_after : search calendar at_one 100 (3600 / 60 + 1) ≡ none
unfolding search matches day_matches has
strictly_after = refl
