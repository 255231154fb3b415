-- ===== src/Tests/Connecting.antt =====
-- The theorems on the OpsRamp client and connector, at concrete servers and settings.
use opsramp_agent_orchestrat.Opsramp.Endpoints.{path_escape, download_path}
use opsramp_agent_orchestrat.Opsramp.Endpoints.Paths.{
  segments, path_unescape, download_path-segments,
}
use opsramp_agent_orchestrat.Prelude.{
  ℕ, ◌≡◌, refl, true, none, some, List, [], ◌∷◌, Text, codes, Result, ok, arith,
}
use opsramp_agent_orchestrat.Opsramp.Client.{
  Servers, Client, granted, fetch_token, SearchResult, list_agent_resources,
}
use opsramp_agent_orchestrat.Opsramp.Client.Tokens.{IsFresh, fetch_token-ok}
use opsramp_agent_orchestrat.Opsramp.Client.Pages.{HasPages, list_agent_resources-ends}
use opsramp_agent_orchestrat.Opsramp.Connector.{reconfigure}
use opsramp_agent_orchestrat.Opsramp.Connector.Settings.{IsConsistent, reconfigure-IsConsistent}
use opsramp_agent_orchestrat.Tests.Samples.{connector, settings, world}

-- The token endpoint claims a life of a hundred days, and the API rejects the first request.
abbrev servers : Servers
servers = record { token_answer = λ n. granted (codes "t") 8640000; api_answer = λ n. ok 407 }

abbrev client : Client
client = record { token = codes "old"; token_expiry = 0; fetches = 0; sent = [] }

abbrev renewed_client : Client
renewed_client = record { token = codes "t"; token_expiry = 7200000000005; fetches = 1; sent = [] }

fetch_token-ok_example : IsFresh 5 (codes "t") renewed_client
unfolding fetch_token
fetch_token-ok_example = fetch_token-ok servers 5 client renewed_client (codes "t") refl

abbrev search : ℕ → Result Text (SearchResult ℕ)
search page = ok (record { results = page ∷ []; total_pages = 3; next_page = true })

search-HasPages : HasPages search 3
search-HasPages page res e = ground (arith, e)

list_agent_resources-ends_example :
    (r : Result Text (List ℕ)) × (list_agent_resources search 4 ≡ some r)
list_agent_resources-ends_example = list_agent_resources-ends search 3 search-HasPages

connector-IsConsistent : IsConsistent connector
connector-IsConsistent = record {
  means = refl;
  client_there = λ e. ground (arith, e);
  no_client = λ e. refl;
  no_polling = λ e. refl;
}

reconfigure-IsConsistent_example : IsConsistent (reconfigure (λ c. none) settings connector world).1
reconfigure-IsConsistent_example =
    reconfigure-IsConsistent (λ c. none) settings connector world connector-IsConsistent

-- A platform that tries to leave its segment.
download_path-segments_example :
    (segments (download_path (codes "t") (codes "x/../y") (codes "a b"))
      ≡ []
        ∷ codes "api"
        ∷ codes "v2"
        ∷ codes "tenants"
        ∷ codes "t"
        ∷ codes "agents"
        ∷ codes "x%2F..%2Fy"
        ∷ codes "download"
        ∷ codes "a%20b"
        ∷ [])
    × (path_unescape (codes "x%2F..%2Fy") ≡ codes "x/../y")
    × (path_unescape (codes "a%20b") ≡ codes "a b")
unfolding path_escape
download_path-segments_example =
    download_path-segments (codes "t") (codes "x/../y") (codes "a b") (ground arith) (ground arith)
      (ground arith)
