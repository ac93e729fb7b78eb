-- ===== src/RateLimit/Cleanup.antt =====
-- internal/api/ratelimit.go: cleanup and the requests after it.
use cloudberry_k8s.Base.{
  ℕ, ◌-◌, ◌*◌, ◌<◌, ◌≤◌, ◌^◌, true, false, Option, none, some, String, str_eq, eq_iff, if_cases,
  ltb, ◌≡◌, refl, sym, arith,
}
use cloudberry_k8s.RateLimit.{
  TokenArith, IsExact, IsSettings, IsTokens, is_stale, Entry, Entries, refill, take_token, allow,
  keep_recent, clean_up,
}

module _ (ops : TokenArith) (limit interval : ℕ) (settings : IsSettings limit interval)
    (laws : IsExact ops limit interval) where
  take_token-old :
      (now : ℕ) (e : Entry ops limit interval)
      → IsTokens ops limit interval e.tokens
      → interval * 2 < now - e.last_refill
      → now < 2 ^ 63
      → take_token ops limit interval now (some e) ≡ take_token ops limit interval now none
  unfolding take_token refill
  take_token-old now e natural old era =
      let enough : ltb limit 1 ≡ false = ground (arith, settings.positive) in
      rw
        (
          laws.fills e.tokens (now - e.last_refill) natural old (omega (arith, era)),
          laws.less_of_ℕ limit 1 settings.small (omega arith),
          enough,
        )
        refl

  -- A client's entry holds no tokens, or more: no negative number and no NaN.
  unfoldable pub IsNatural : Option (Entry ops limit interval) → Type 0
  IsNatural none = Unit
  IsNatural (some e) = IsTokens ops limit interval e.tokens

  stale_lt :
      (before after : ℕ)
      → is_stale ops limit interval before ≡ true
      → before ≤ after
      → interval * 2 < after
  stale_lt before after old le = ground (arith, settings.twice_fits)

  keep_recent-take :
      (earlier now : ℕ) (o : Option (Entry ops limit interval))
      → earlier ≤ now
      → now < 2 ^ 63
      → IsNatural o
      → take_token ops limit interval now (keep_recent ops limit interval earlier o)
        ≡ take_token ops limit interval now o
  unfolding keep_recent IsNatural
  keep_recent-take earlier now none le era natural = refl
  keep_recent-take earlier now (some e) le era natural =
      if_cases
        (λ o. take_token ops limit interval now o ≡ take_token ops limit interval now (some e))
        (is_stale ops limit interval (earlier - e.last_refill)) none (some e)
        (λ old. sym (
          take_token-old now e natural
            (stale_lt (earlier - e.last_refill) (now - e.last_refill) old (omega (arith, le))) era))
        (λ recent. refl)

  -- Under the laws of float64, where the limit is at least 1 and below 2 ^ 53 and the interval at
  -- least 1 and below 2 ^ 62, a request before the time 2 ^ 63, at or after a cleanup, gets the
  -- answer that it would get without the cleanup, and leaves the client the same entry, if the entry
  -- held no tokens or a positive number of them.
  pub allow-clean_up :
      (earlier now : ℕ) (ip : String) (entries : Entries ops limit interval)
      → earlier ≤ now
      → now < 2 ^ 63
      → IsNatural (entries ip)
      → ((allow ops limit interval now ip (clean_up ops limit interval earlier entries)).1
          ≡ (allow ops limit interval now ip entries).1)
        × ((allow ops limit interval now ip (clean_up ops limit interval earlier entries)).0 ip
            ≡ (allow ops limit interval now ip entries).0 ip)
  unfolding allow clean_up
  allow-clean_up earlier now ip entries le era natural =
      let same : str_eq ip ip ≡ true = ground (arith, eq_iff ip ip) in
      rw (keep_recent-take earlier now (entries ip) le era natural, same) (refl, refl)
