-- ===== src/Cron/Search.antt =====
-- internal/cron/cron.go: the search for the next run, on its own.
use cloudberry_k8s.Base.{
  ℕ, zero, suc, ◌+◌, ◌*◌, ◌/◌, ◌<◌, ◌≤◌, true, false, some, ◌≡◌, ◌↔◌, refl, arith, ℕ_discrete,
  Bool-cases, inl, inr,
}
use cloudberry_k8s.Cron.Schedule.{Schedule, Moment, matches, search, next, max_search_minutes}

module _ (calendar : ℕ → Moment) (s : Schedule) where
  -- Minute u is the first one after the time `from`, in seconds, at which the schedule matches, and
  -- it is within the window.
  pub record IsNext (from u : ℕ) : Type 0 where
    pub after : from < 60 * u
    pub in_window : 60 * u ≤ from + 60 * max_search_minutes
    pub matching : matches s (calendar u) ≡ true
    pub first : (v : ℕ) → from < 60 * v → v < u → matches s (calendar v) ≡ false

  record IsFirst (t n u : ℕ) : Type 0 where
    after : t ≤ u
    in_window : u < t + n
    matching : matches s (calendar u) ≡ true
    first : (v : ℕ) → t ≤ v → v < u → matches s (calendar v) ≡ false

  -- The minute at which a search begins is not searched further.
  skip :
      (t u v : ℕ)
      → matches s (calendar t) ≡ false
      → ((v : ℕ) → t + 1 ≤ v → v < u → matches s (calendar v) ≡ false)
      → t ≤ v
      → v < u
      → matches s (calendar v) ≡ false
  skip t u v miss later le lt = elim (ℕ_discrete v t) [
    | yes e ↦ rw e miss
    | no ne ↦ later v (omega arith) lt
  ]

  search-IsFirst : (n t u : ℕ) → search calendar s n t ≡ some u → IsFirst t n u
  unfolding search
  search-IsFirst zero t u h = ground arith
  search-IsFirst (suc n) t u h = elim (Bool-cases (matches s (calendar t))) [
    | inl hit ↦ record {
      after = ground arith;
      in_window = ground arith;
      matching = let e : t ≡ u = ground arith in rw e at hit;
      first = λ v le lt. ground arith;
    }
    | inr miss ↦
        let later = search-IsFirst n (t + 1) u (ground arith) in
        record {
          after = omega (arith, later.after);
          in_window = omega (arith, later.in_window);
          matching = later.matching;
          first = λ v le lt. skip t u v miss later.first le lt;
        }
  ]

  IsFirst-search : (n t u : ℕ) → IsFirst t n u → search calendar s n t ≡ some u
  unfolding search
  IsFirst-search zero t u h = ground (arith, h.after, h.in_window)
  IsFirst-search (suc n) t u h = elim (ℕ_discrete t u) [
    | yes e ↦ rw (e, h.matching) refl
    | no ne ↦
        let later = IsFirst-search n (t + 1) u (record {
          after = omega arith;
          in_window = omega arith;
          matching = h.matching;
          first = λ v le lt. h.first v (omega arith) lt;
        }) in
        rw (h.first t (omega arith) (omega arith)) later
  ]

  -- Next returns u exactly when u is the first minute after the given time, and within 366 days,
  -- that matches the schedule; otherwise it returns nothing.
  pub next-IsNext : (from u : ℕ) → (next calendar s from ≡ some u) ↔ IsNext from u
  unfolding next
  next-IsNext from u = (there, back)
    where
      there : search calendar s max_search_minutes (from / 60 + 1) ≡ some u → IsNext from u
      there h =
          let f = search-IsFirst max_search_minutes (from / 60 + 1) u h in
          record {
            after = omega (arith, f.after);
            in_window = omega (arith, f.in_window);
            matching = f.matching;
            first = λ v lt below. f.first v (omega arith) below;
          }

      back : IsNext from u → search calendar s max_search_minutes (from / 60 + 1) ≡ some u
      back h = IsFirst-search max_search_minutes (from / 60 + 1) u (record {
        after = omega (arith, h.after);
        in_window = omega (arith, h.in_window);
        matching = h.matching;
        first = λ v le below. h.first v (omega arith) below;
      })
