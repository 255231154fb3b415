-- ===== src/Opsramp/Client/Tokens.antt =====
-- internal/opsramp/client.go: the token cache, and what a request sends.
use opsramp_agent_orchestrat.Prelude.{
  ℕ, ◌+◌, ◌*◌, ◌%◌, ◌^◌, ◌≤◌, ◌<◌, ◌≡◌, refl, ap, sym, ◌∙◌, Bool, true, false, not, ◌&&◌, [], ◌∷◌,
  length, length-append, Text, is_empty, Result, ok, err, arith, Bool-cases, inl, inr,
}
use opsramp_agent_orchestrat.Opsramp.Client.{
  TokenAnswer, token_failed, granted, Servers, Client, max_token_ttl, clamp_ttl, ttl_of,
  token_valid, cleared, cached, fetch_token, access_token, send, do_once, is_auth_status, retried,
  request,
}

clamp_ttl_bounds : (ttl : ℕ) → (0 < clamp_ttl ttl) × (clamp_ttl ttl ≤ max_token_ttl)
unfolding clamp_ttl
clamp_ttl_bounds ttl = (ground arith, ground arith)

ttl_of_bounds : (seconds : ℕ) → (0 < ttl_of seconds) × (ttl_of seconds ≤ max_token_ttl)
unfolding ttl_of
ttl_of_bounds seconds = clamp_ttl_bounds ((seconds * 1000000000) % 2 ^ 64)

-- The token is cached, and its expiry is to come and at most two hours away.
abbrev pub IsFresh : ℕ → Text → Client → Type 0
IsFresh now token d =
    (is_empty token ≡ false)
    × (d.token ≡ token)
    × (now < d.token_expiry)
    × (d.token_expiry ≤ now + max_token_ttl)

cached-ok :
    (now : ℕ) (c d : Client) (a : TokenAnswer) (token : Text)
    → cached now c a ≡ (ok token, d)
    → IsFresh now token d
unfolding cached
cached-ok now c d (token_failed x) token e = ground (arith, ap (λ p. p.0) e)
cached-ok now c d (granted t seconds) token e = elim (Bool-cases (is_empty t)) [
  | inl q ↦ ground (arith, q, ap (λ p. p.0) e)
  | inr q ↦
      let same : t ≡ token = ground (arith, q, ap (λ p. p.0) e) in
      let expiry : d.token_expiry ≡ now + ttl_of seconds =
        sym (ap (λ p. p.1.token_expiry) e) ∙ rw q refl in
      let kept : d.token ≡ t = sym (ap (λ p. p.1.token) e) ∙ rw q refl in
      let (low, high) = ttl_of_bounds seconds in
      (
        ap is_empty (sym same) ∙ q,
        kept ∙ same,
        omega (arith, expiry, low),
        omega (arith, expiry, high),
      )
]

-- A fetched token is not empty, and is cached with an expiry that is still to come and at most two hours
-- away, whatever life the token endpoint claims for it.
pub fetch_token-ok :
    (net : Servers) (now : ℕ) (c d : Client) (token : Text)
    → fetch_token net now c ≡ (ok token, d)
    → IsFresh now token d
unfolding fetch_token
fetch_token-ok net now c d token e =
    cached-ok now (cleared c) d (net.token_answer c.fetches) token e

cached-err :
    (now : ℕ) (c : Client) (a : TokenAnswer) (x : Text)
    → is_empty c.token ≡ true
    → (cached now c a).0 ≡ err x
    → token_valid now (cached now c a).1 ≡ false
unfolding cached token_valid
cached-err now c (token_failed y) x q e = rw q refl
cached-err now c (granted t seconds) x q e = elim (Bool-cases (is_empty t)) [
  | inl p ↦ rw (p, q) refl
  | inr p ↦ ground (arith, p, e)
]

-- A failed fetch leaves no token in the cache, so that the next call asks again.
pub fetch_token-err :
    (net : Servers) (now : ℕ) (c : Client) (x : Text)
    → (fetch_token net now c).0 ≡ err x
    → token_valid now (fetch_token net now c).1 ≡ false
unfolding fetch_token cleared
fetch_token-err net now c x e = cached-err now (cleared c) (net.token_answer c.fetches) x refl e

send_count :
    (net : Servers) (p : Result Text Text × Client)
    → length (send net p).1.sent ≤ length p.1.sent + 1
unfolding send
send_count net (err e, c) = omega arith
send_count net (ok t, c) = omega (arith, length-append c.sent (t ∷ []))

cached-sent : (now : ℕ) (c : Client) (a : TokenAnswer) → (cached now c a).1.sent ≡ c.sent
unfolding cached
cached-sent now c (token_failed x) = refl
cached-sent now c (granted t seconds) = elim (Bool-cases (is_empty t)) [
  | inl q ↦ rw q refl
  | inr q ↦ rw q refl
]

access_token-sent :
    (net : Servers) (now : ℕ) (force : Bool) (c : Client)
    → (access_token net now force c).1.sent ≡ c.sent
unfolding access_token fetch_token cleared
access_token-sent net now force c = elim (Bool-cases (not force && token_valid now c)) [
  | inl q ↦ rw q refl
  | inr q ↦ rw q (cached-sent now (cleared c) (net.token_answer c.fetches))
]

do_once_count :
    (net : Servers) (now : ℕ) (refresh : Bool) (c : Client)
    → length (do_once net now refresh c).1.sent ≤ length c.sent + 1
unfolding do_once
do_once_count net now refresh c = omega (
  arith,
  send_count net (access_token net now refresh c),
  ap length (access_token-sent net now refresh c),
)

retried_count :
    (net : Servers) (now : ℕ) (p : Result Text ℕ × Client)
    → length (retried net now p).1.sent ≤ length p.1.sent + 1
unfolding retried
retried_count net now (err e, c) = omega arith
retried_count net now (ok status, c) = elim (Bool-cases (is_auth_status status)) [
  | inl q ↦ rw q (do_once_count net now true c)
  | inr q ↦ rw q (omega arith)
]

-- A request is sent at most twice.
pub request_count :
    (net : Servers) (now : ℕ) (c : Client) → length (request net now c).1.sent ≤ length c.sent + 2
unfolding request
request_count net now c =
    omega (arith, retried_count net now (do_once net now false c), do_once_count net now false c)

-- Where the first answer rejects the token, the request is sent again with a token that is fetched
-- anew, even if the cached one has not expired.
pub request-retries :
    (net : Servers) (now status : ℕ) (c d : Client)
    → do_once net now false c ≡ (ok status, d)
    → is_auth_status status ≡ true
    → request net now c ≡ send net (fetch_token net now d)
unfolding request retried do_once access_token
request-retries net now status c d e rejected = ap (retried net now) e ∙ rw rejected refl
