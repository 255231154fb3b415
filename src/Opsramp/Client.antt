-- ===== src/Opsramp/Client.antt =====
-- internal/opsramp/client.go and api.go: the token cache, the retry on a rejected token, and the pages of
-- the inventory. The servers' answers are parameters, by their number; a time is in nanoseconds.
pub mod Tokens
pub mod Pages
use opsramp_agent_orchestrat.Prelude.{
  ℕ, zero, suc, ◌+◌, ◌*◌, ◌-◌, ◌%◌, ◌^◌, Bool, true, false, not, ◌&&◌, ◌||◌, Option, none, some,
  List, [], ◌∷◌, ◌++◌, ltb, leb, ◌==◌, if◌then◌else◌, Text, codes, is_empty, Result, ok, err,
}

-- `expires_in` is the 64 bits of a signed number of seconds.
pub data TokenAnswer : Type 0 where
  token_failed : Text → TokenAnswer
  granted : Text → ℕ → TokenAnswer

-- What the servers answer to the n-th token request and to the n-th API request; an API answer is a
-- transport error or a status.
pub record Servers : Type 0 where
  pub token_answer : ℕ → TokenAnswer
  pub api_answer : ℕ → Result Text ℕ

pub record Client : Type 0 where
  pub token : Text
  pub token_expiry : ℕ
  -- the token requests that were sent, and the tokens of the API requests
  pub fetches : ℕ
  pub sent : List Text

abbrev pub minute : ℕ
minute = 60000000000

abbrev pub token_skew : ℕ
token_skew = minute

abbrev pub max_token_ttl : ℕ
max_token_ttl = 120 * minute

abbrev pub min_token_ttl : ℕ
min_token_ttl = 5 * minute

-- The upper half of the 64 bits is negative.
unfoldable clamp_ttl : ℕ → ℕ
clamp_ttl ttl =
    if ttl == 0 || leb (2 ^ 63) ttl
    then min_token_ttl
    else if ltb max_token_ttl ttl
    then max_token_ttl
    else ttl

unfoldable pub token_valid : ℕ → Client → Bool
token_valid now c = not (is_empty c.token) && ltb (now + token_skew) c.token_expiry

-- `time.Duration(seconds) * time.Second` on 64 bits, and the clamp.
unfoldable pub ttl_of : ℕ → ℕ
unfolding clamp_ttl
ttl_of seconds = clamp_ttl ((seconds * 1000000000) % 2 ^ 64)

-- The cache is cleared first, and stays so on a failure.
unfoldable cleared : Client → Client
cleared c = record c { token = []; token_expiry = 0; fetches = c.fetches + 1 }

unfoldable cached : ℕ → Client → TokenAnswer → Result Text Text × Client
unfolding ttl_of
cached now c (token_failed e) = (err e, c)
cached now c (granted token seconds) =
    if is_empty token
    then (err (codes "oauth token: empty access_token"), c)
    else (ok token, record c { token = token; token_expiry = now + ttl_of seconds })

unfoldable pub fetch_token : Servers → ℕ → Client → Result Text Text × Client
unfolding cleared cached
fetch_token net now c = cached now (cleared c) (net.token_answer c.fetches)

unfoldable pub access_token : Servers → ℕ → Bool → Client → Result Text Text × Client
unfolding token_valid fetch_token
access_token net now force c =
    if not force && token_valid now c then (ok c.token, c) else fetch_token net now c

-- `TokenExpiry`
unfoldable pub cached_expiry : Client → Option ℕ
cached_expiry c = if is_empty c.token then none else some c.token_expiry

failure : Result Text Text × Client → Option Text × Client
failure (ok token, c) = (none, c)
failure (err e, c) = (some e, c)

-- `EnsureToken`, which is `Ping` too, and `RefreshToken`: the error, if there is one.
unfoldable pub token_ensured : Servers → ℕ → Client → Option Text × Client
unfolding access_token failure
token_ensured net now c = failure (access_token net now false c)

unfoldable pub token_refreshed : Servers → ℕ → Client → Option Text × Client
unfolding access_token failure
token_refreshed net now c = failure (access_token net now true c)

with_expiry : Result Text Text × Client → Result Text (Text × ℕ) × Client
unfolding cached_expiry
with_expiry (err e, c) = (err e, c)
with_expiry (ok token, c) =
    (ok (token, elim (cached_expiry c) [ none ↦ 0 | some expiry ↦ expiry ]), c)

-- `Token`
unfoldable pub token_handed : Servers → ℕ → Bool → Client → Result Text (Text × ℕ) × Client
unfolding access_token with_expiry
token_handed net now refresh c = with_expiry (access_token net now refresh c)

count_all : List Text → ℕ
count_all [] = 0
count_all (x ∷ xs) = suc (count_all xs)

unfoldable send : Servers → Result Text Text × Client → Result Text ℕ × Client
unfolding count_all
send net (err e, c) = (err e, c)
send net (ok token, c) =
    (net.api_answer (count_all c.sent), record c { sent = c.sent ++ token ∷ [] })

unfoldable pub do_once : Servers → ℕ → Bool → Client → Result Text ℕ × Client
unfolding access_token send
do_once net now refresh c = send net (access_token net now refresh c)

unfoldable pub is_auth_status : ℕ → Bool
is_auth_status code = code == 401 || code == 407

unfoldable retried : Servers → ℕ → Result Text ℕ × Client → Result Text ℕ × Client
unfolding is_auth_status do_once
retried net now (err e, c) = (err e, c)
retried net now (ok status, c) =
    if not (is_auth_status status) then (ok status, c) else do_once net now true c

-- `do`, at one moment.
unfoldable pub request : Servers → ℕ → Client → Result Text ℕ × Client
unfolding do_once retried
request net now c = retried net now (do_once net now false c)

pub record SearchResult (R : Type 0) : Type 0 where
  pub results : List R
  pub total_pages : ℕ
  pub next_page : Bool

module _ {R : Type 0} (search : ℕ → Result Text (SearchResult R)) where
  unfoldable after_page :
      (List R → Option (Result Text (List R)))
      → ℕ
      → List R
      → Result Text (SearchResult R)
      → Option (Result Text (List R))
  after_page rest page all (err e) = some (err e)
  after_page rest page all (ok res) =
      if not res.next_page || (is_empty res.results || leb res.total_pages page)
      then some (ok (all ++ res.results))
      else rest (all ++ res.results)

  -- The loop on fuel; `none` where it runs out.
  unfoldable pub list_from : ℕ → ℕ → List R → Option (Result Text (List R))
  unfolding after_page
  list_from zero page all = none
  list_from (suc fuel) page all =
      after_page (λ more. list_from fuel (page + 1) more) page all (search page)

  -- `ListAgentResources`, with `search` for a page of the resources with an agent.
  unfoldable pub list_agent_resources : ℕ → Option (Result Text (List R))
  unfolding list_from
  list_agent_resources fuel = list_from fuel 1 []
