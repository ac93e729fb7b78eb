-- ===== src/RateLimit/Isolation.antt =====
-- internal/api/ratelimit.go: the answers to one client among others.
use cloudberry_k8s.Base.{
  ℕ, Bool, true, false, String, str_eq, eq_iff, List, [], ◌∷◌, if◌then◌else◌, ◌≡◌, refl, ◌∙◌,
  Bool-cases, inl, inr,
}
use cloudberry_k8s.RateLimit.{TokenArith, Entries, allow}

module _ (ops : TokenArith) (limit interval : ℕ) where
  -- The answers that a client gets in a sequence of requests, each with its time and its client.
  unfoldable pub answers : String → List (ℕ × String) → Entries ops limit interval → List Bool
  answers ip [] entries = []
  answers ip (request ∷ requests) entries =
      let answer = allow ops limit interval request.0 request.1 entries in
      let rest = answers ip requests answer.0 in
      if str_eq ip request.1 then answer.1 ∷ rest else rest

  -- The requests of a client alone.
  unfoldable pub own : String → List (ℕ × String) → List (ℕ × String)
  own ip [] = []
  own ip (request ∷ requests) =
      let rest = own ip requests in if str_eq ip request.1 then request ∷ rest else rest

  allow-other :
      (now : ℕ) (ip other : String) (entries : Entries ops limit interval)
      → str_eq ip other ≡ false
      → (allow ops limit interval now other entries).0 ip ≡ entries ip
  unfolding allow
  allow-other now ip other entries differs = rw differs refl

  -- What a request does for its own client depends on that client's entry alone.
  Agree : ℕ → String → String → Entries ops limit interval → Entries ops limit interval → Type 0
  Agree now ip other a b =
      ((allow ops limit interval now other a).1 ≡ (allow ops limit interval now other b).1)
      × ((allow ops limit interval now other a).0 ip ≡ (allow ops limit interval now other b).0 ip)

  allow-Agree :
      (now : ℕ) (ip other : String) (a b : Entries ops limit interval)
      → str_eq ip other ≡ true
      → a ip ≡ b ip
      → Agree now ip other a b
  unfolding Agree allow
  allow-Agree now ip other a b same e =
      let name : ip ≡ other = (eq_iff ip other).0 same in
      let e' : a other ≡ b other = rw name at e in rw (same, e') (refl, refl)

  -- The answers depend on the client's own entry alone.
  answers-entry :
      (ip : String) (requests : List (ℕ × String)) (a b : Entries ops limit interval)
      → a ip ≡ b ip
      → answers ip requests a ≡ answers ip (own ip requests) b
  unfolding answers own Agree
  answers-entry ip [] a b e = refl
  answers-entry ip (request ∷ requests) a b e = elim (Bool-cases (str_eq ip request.1)) [
    | inl same ↦
        let (answer, entry) = allow-Agree request.0 ip request.1 a b same e in
        let rest =
          answers-entry ip requests (allow ops limit interval request.0 request.1 a).0
            (allow ops limit interval request.0 request.1 b).0 entry in
        rw (same, same, answer, rest) refl
    | inr differs ↦ rw differs (
        answers-entry ip requests (allow ops limit interval request.0 request.1 a).0 b
          (allow-other request.0 ip request.1 a differs ∙ e))
  ]

  -- In any sequence of requests of any clients, a client gets the answers that it would get if it
  -- had been alone.
  pub answers-own :
      (ip : String) (requests : List (ℕ × String)) (entries : Entries ops limit interval)
      → answers ip requests entries ≡ answers ip (own ip requests) entries
  answers-own ip requests entries = answers-entry ip requests entries entries refl
