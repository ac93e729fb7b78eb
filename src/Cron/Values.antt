-- ===== src/Cron/Values.antt =====
-- internal/cron/cron.go: which values one component of a field selects.
use cloudberry_k8s.Base.{
  ℕ, zero, suc, ◌+◌, ◌*◌, ◌%◌, ◌^◌, ◌<◌, ◌≤◌, some, true, false, List, [], ◌∷◌, leb, ◌==◌, ==_iff,
  ◌≡◌, ◌↔◌, refl, ◌∙◌, arith, Bool-cases, ◌⊎◌, inl, inr,
}
use cloudberry_k8s.Cron.Bytes.{Bytes}
use cloudberry_k8s.Cron.Parse.Ranges.{parse_range-IsRange, split_step-positive}
use cloudberry_k8s.Cron.Parse.{
  parse_part, split_step, parse_range, FieldBounds, insert_values, signed_leb, normalize_day, has,
  loop_fuel,
}

signed_leb-small : (v hi : ℕ) → v < 2 ^ 63 → hi < 2 ^ 63 → signed_leb v hi ≡ leb v hi
signed_leb-small v hi lv lh = ground (arith)

-- x is what a value v, v + step, ... up to hi stands for.
pub Selects : FieldBounds → ℕ → ℕ → ℕ → ℕ → Type 0
Selects b lo hi step x = (i : ℕ) × (lo + i * step ≤ hi) × (normalize_day b (lo + i * step) ≡ x)

mod_small : (v : ℕ) → v < 2 ^ 64 → v % 2 ^ 64 ≡ v
mod_small v h = omega arith

has-nil : (x : ℕ) → has [] x ≡ false
unfolding has
has-nil x = refl

module _ (b : FieldBounds) (hi step : ℕ) (small : hi < 60) (moves : 0 < step)
    (no_overflow : step + 60 < 2 ^ 63) where
  insert_values-stop : (fuel v : ℕ) → v < 2 ^ 63 → hi < v → insert_values fuel b v hi step ≡ []
  unfolding insert_values
  insert_values-stop zero v bound past = refl
  insert_values-stop (suc fuel) v bound past =
      let e : signed_leb v hi ≡ leb v hi = signed_leb-small v hi bound (omega arith) in
      let f : leb v hi ≡ false = ground arith in rw (e ∙ f) refl

  insert_values-go :
      (fuel v : ℕ)
      → v ≤ hi
      → insert_values (suc fuel) b v hi step
        ≡ normalize_day b v ∷ insert_values fuel b (v + step) hi step
  unfolding insert_values
  insert_values-go fuel v le =
      let e : signed_leb v hi ≡ leb v hi = signed_leb-small v hi (omega arith) (omega arith) in
      let f : leb v hi ≡ true = ground arith in rw (e ∙ f, mod_small (v + step) (omega arith)) refl

  later : (v x : ℕ) → Selects b (v + step) hi step x → Selects b v hi step x
  unfolding Selects
  later v x (i, le, e) =
      let shift : v + suc i * step ≡ v + step + i * step = omega arith in
      (suc i, omega arith, rw shift e)

  in_rest : (v x : ℕ) (rest : List ℕ) → has (v ∷ rest) x ≡ true → (v ≡ x) ⊎ (has rest x ≡ true)
  unfolding has
  in_rest v x rest h = elim (Bool-cases (v == x)) [
    | inl same ↦ inl (ground arith)
    | inr other ↦ inr (ground arith)
  ]

  insert_values-Selects :
      (fuel v x : ℕ)
      → v < 2 ^ 63
      → hi < v + fuel
      → has (insert_values fuel b v hi step) x ≡ true
      → Selects b v hi step x
  unfolding Selects
  insert_values-Selects zero v x bound enough h =
      let e : insert_values 0 b v hi step ≡ [] = insert_values-stop 0 v bound (omega arith) in
      ground (arith, has-nil x, (rw e at h))
  insert_values-Selects (suc n) v x bound enough h = elim (Bool-cases (leb v hi)) [
    | inr past ↦
        let e : insert_values (suc n) b v hi step ≡ [] =
          insert_values-stop (suc n) v bound (ground arith) in
        ground (arith, has-nil x, (rw e at h))
    | inl within ↦
        let le : v ≤ hi = ground arith in
        elim (in_rest _ x _ (rw (insert_values-go n v le) at h)) [
          | inl e ↦ let start : v + 0 * step ≡ v = omega arith in (0, omega arith, rw start e)
          | inr h' ↦ later v x (insert_values-Selects n (v + step) x (omega arith) (omega arith) h')
        ]
  ]

  Selects-insert_values :
      (fuel v x : ℕ)
      → v < 2 ^ 63
      → hi < v + fuel
      → Selects b v hi step x
      → has (insert_values fuel b v hi step) x ≡ true
  unfolding Selects has
  Selects-insert_values zero v x bound enough (i, le, e) = ground arith
  Selects-insert_values (suc n) v x bound enough (zero, le, e) =
      rw (insert_values-go n v (omega arith)) (ground (arith, ==_iff (normalize_day b v) x))
  Selects-insert_values (suc n) v x bound enough (suc j, le, e) =
      let shift : v + suc j * step ≡ v + step + j * step = omega arith in
      let rest =
        Selects-insert_values n (v + step) x (omega arith) (omega arith)
          (j, omega arith, rw shift at e) in
      rw (insert_values-go n v (omega arith)) (ground (arith, rest))

  -- With a step that is positive and keeps v + step from overflowing, the loop of parsePart inserts
  -- exactly lo, lo + step, ... up to hi, with 7 as 0 in the day of the week.
  pub insert_values_iff :
      (lo x : ℕ)
      → lo ≤ hi
      → (has (insert_values loop_fuel b lo hi step) x ≡ true) ↔ Selects b lo hi step x
  insert_values_iff lo x le = (
    insert_values-Selects loop_fuel lo x (omega arith) (omega arith),
    Selects-insert_values loop_fuel lo x (omega arith) (omega arith),
  )

-- A component of a field selects exactly lo, lo + step, ... up to hi, if it splits into a range that
-- resolves to lo and hi and a step that is not near the largest int; 7 counts as 0 in the day of
-- the week.
pub parse_part_iff :
    (b : FieldBounds) (part spec : Bytes) (step lo hi : ℕ)
    → b.min ≤ b.max
    → b.max < 60
    → split_step part ≡ some (spec, step)
    → parse_range b spec ≡ some (lo, hi)
    → step + 60 < 2 ^ 63
    → (values : List ℕ) × (parse_part b part ≡ some values)
      × ((x : ℕ) → (has values x ≡ true) ↔ Selects b lo hi step x)
unfolding parse_part
parse_part_iff b part spec step lo hi ordered small es er no_overflow =
    let range = parse_range-IsRange b spec lo hi ordered er in
    (
      insert_values loop_fuel b lo hi step,
      rw (es, er) refl,
      λ x.
          insert_values_iff b hi step (omega (arith, range.below))
            (split_step-positive part spec step es) no_overflow lo x range.ordered,
    )
