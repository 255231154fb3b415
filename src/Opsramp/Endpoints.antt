-- ===== src/Opsramp/Endpoints.antt =====
-- internal/opsramp/client.go and api.go: the requests of the single endpoints, and what is made of the
-- replies. `ask` stands for `do`: an error's text, or the reply. The JSON codings are parameters.
pub mod Paths
use opsramp_agent_orchestrat.Prelude.{
  ℕ, ◌+◌, ◌-◌, ◌/◌, ◌%◌, Bool, true, false, not, ◌&&◌, ◌||◌, Option, none, some, List, [], ◌∷◌,
  ◌++◌, length, ltb, leb, ◌==◌, if◌then◌else◌, Text, codes, decimal, is_empty, trim_space,
  trim_left, Result, ok, err,
}
use opsramp_agent_orchestrat.Opsramp.Client.{SearchResult}

pub record ApiRequest : Type 0 where
  pub method : Text
  pub path : Text
  -- the values of the query, before their encoding
  pub query : List (Text × Text)
  pub body : Option Text
  pub content_type : Text
  pub accept : Text

pub record Reply : Type 0 where
  pub status : ℕ
  pub content_type : Text
  pub data_read : List ℕ

pub data ApiError : Type 0 where
  -- `do` failed, a reply could not be decoded, and `APIError`
  transport : Text → ApiError
  undecodable : Text → ApiError
  api_error : ℕ → Text → Text → ApiError

-- The bytes that `url.PathEscape` leaves as they are.
unfoldable pub is_plain : ℕ → Bool
is_plain c =
    (leb b'a' c && leb c b'z')
    || ((leb b'A' c && leb c b'Z')
        || ((leb b'0' c && leb c b'9')
            || (c == b'-'
                || (c == b'_'
                    || (c == b'.'
                        || (c == b'~'
                            || (c == b'$'
                                || (c == b'&'
                                    || (c == b'+'
                                        || (c == b'=' || (c == b':' || c == b'@')))))))))))

unfoldable pub upper_hex : ℕ → ℕ
upper_hex d = if ltb d 10 then b'0' + d else b'A' + (d - 10)

-- `url.PathEscape`
unfoldable pub path_escape : Text → Text
unfolding is_plain upper_hex
path_escape [] = []
path_escape (c ∷ s) =
    (if is_plain c then c ∷ [] else b'%' ∷ upper_hex (c / 16) ∷ upper_hex (c % 16) ∷ [])
    ++ path_escape s

unfoldable pub tenant_path : Text → Text → Text
unfolding trim_left
tenant_path tenant suffix =
    codes "/api/v2/tenants/" ++ (tenant ++ (b'/' ∷ trim_left (λ c. c == b'/') suffix))

unfoldable pub is_success : ℕ → Bool
is_success status = leb 200 status && ltb status 300

abbrev pub json_type : Text
json_type = codes "application/json"

-- The request of `doJSON`; `body` is the JSON of the value, if there is one.
unfoldable pub json_request : Text → Text → List (Text × Text) → Option Text → ApiRequest
json_request method path query body = record {
  method = method;
  path = path;
  query = query;
  body = body;
  content_type = elim body [ none ↦ [] | some b ↦ json_type ];
  accept = json_type;
}

unfoldable decoded : {A : Type 0} → (Text → Option A) → A → Text → Text → Result ApiError A
decoded decode zero_value path bytes =
    if is_empty bytes
    then ok zero_value
    else elim (decode bytes) [ none ↦ err (undecodable path) | some a ↦ ok a ]

unfoldable json_reply :
    {A : Type 0} → (Text → Option A) → A → Text → Result Text Reply → Result ApiError A
unfolding decoded is_success trim_space
json_reply decode zero_value path (err e) = err (transport e)
json_reply decode zero_value path (ok r) =
    if not (is_success r.status)
    then err (api_error r.status (trim_space r.data_read) path)
    else decoded decode zero_value path r.data_read

-- `doJSON` into a value that is `zero_value` where the reply has no data.
unfoldable pub do_json :
    {A : Type 0}
    → (ApiRequest → Result Text Reply)
    → (Text → Option A)
    → A
    → ApiRequest
    → Result ApiError A
unfolding json_reply
do_json ask decode zero_value req = json_reply decode zero_value req.path (ask req)

-- Reading into a `json.RawMessage` keeps the text; `valid` says whether it is JSON.
abbrev raw_message : (Text → Bool) → Text → Option Text
raw_message valid s = if valid s then some s else none

-- What an empty reply leaves.
abbrev pub no_page : {R : Type 0} → SearchResult R
no_page = record { results = []; total_pages = 0; next_page = false }

module _ (tenant : Text) where
  unfoldable pub resource_path : Text → Text
  unfolding tenant_path path_escape
  resource_path id = tenant_path tenant (codes "resources/" ++ path_escape id)

  unfoldable pub info_path : Text → Text
  unfolding tenant_path path_escape
  info_path platform =
      tenant_path tenant (codes "agents/" ++ (path_escape platform ++ codes "/info"))

  unfoldable pub download_path : Text → Text → Text
  unfolding tenant_path path_escape
  download_path platform pkg =
      tenant_path tenant
        (codes "agents/" ++ (path_escape platform ++ (codes "/download/" ++ path_escape pkg)))

  unfoldable pub policy_path : Text → Text
  unfolding tenant_path path_escape
  policy_path id =
      tenant_path tenant (codes "agentPolicies/" ++ (path_escape id ++ codes "/devices"))

  unfoldable pub profile_path : Text → Text
  unfolding tenant_path path_escape
  profile_path id =
      tenant_path tenant (codes "agentProfiles/" ++ (path_escape id ++ codes "/devices"))

  -- Pages count from 1, and have 100 resources where the caller does not say.
  unfoldable pub page_request : Text → ℕ → ℕ → ApiRequest
  unfolding json_request tenant_path
  page_request query_string page_no page_size =
      json_request (codes "GET") (tenant_path tenant (codes "resources/search"))
        ((if is_empty query_string then [] else (codes "queryString", query_string) ∷ [])
          ++ (codes "pageNo", decimal (if page_no == 0 then 1 else page_no))
            ∷ (codes "pageSize", decimal (if page_size == 0 then 100 else page_size))
            ∷ (codes "sortName", codes "name")
            ∷ (codes "isDescendingOrder", codes "false")
            ∷ [])
        none

  -- `decode` makes the page of the reply, with the text of each resource.
  unfoldable pub search_resources :
      {R : Type 0}
      → (ApiRequest → Result Text Reply)
      → (Text → Option (SearchResult R))
      → Text
      → ℕ
      → ℕ
      → Result ApiError (SearchResult R)
  unfolding do_json page_request
  search_resources ask decode query_string page_no page_size =
      do_json ask decode no_page (page_request query_string page_no page_size)

  module _ (ask : ApiRequest → Result Text Reply) (valid : Text → Bool) where
    -- `DeleteResource` reads no value.
    unfoldable pub delete_resource : Text → Result ApiError (Unit {0})
    unfolding do_json json_request resource_path
    delete_resource id =
        do_json ask (λ _. some tt) tt (json_request (codes "DELETE") (resource_path id) [] none)

    unfoldable pub get_agent_info : Text → Result ApiError Text
    unfolding do_json json_request info_path
    get_agent_info platform =
        do_json ask (raw_message valid) [] (json_request (codes "GET") (info_path platform) [] none)

    unfoldable pub configure_auto_updates : Option Text → Result ApiError Text
    unfolding do_json json_request tenant_path
    configure_auto_updates body =
        do_json ask (raw_message valid) []
          (json_request (codes "POST") (tenant_path tenant (codes "agents/updates")) [] body)

    unfoldable pub assign_policy_devices : Text → Option Text → Result ApiError Text
    unfolding do_json json_request policy_path
    assign_policy_devices id body =
        do_json ask (raw_message valid) [] (json_request (codes "POST") (policy_path id) [] body)

    unfoldable pub assign_profile_devices : Text → Option Text → Result ApiError Text
    unfolding do_json json_request profile_path
    assign_profile_devices id body =
        do_json ask (raw_message valid) [] (json_request (codes "POST") (profile_path id) [] body)

  module _ (ask : ApiRequest → Result Text Reply) where
    unfoldable streamed : Text → Result Text Reply → Result ApiError (List ℕ × Text)
    unfolding is_success
    streamed path (err e) = err (transport e)
    streamed path (ok r) =
        if is_success r.status
        then ok (r.data_read, r.content_type)
        else err (api_error r.status r.data_read path)

    -- The package and its content type.
    unfoldable pub download_agent : Text → Text → Result ApiError (List ℕ × Text)
    unfolding streamed download_path
    download_agent platform pkg = streamed (download_path platform pkg) (
        ask (record {
          method = codes "GET";
          path = download_path platform pkg;
          query = [];
          body = none;
          content_type = [];
          accept = codes "*/*";
        }))

    unfoldable script_of : Result ApiError (List ℕ × Text) → Result ApiError (List ℕ)
    script_of (err e) = err e
    script_of (ok (s, t)) = ok s

    -- The error names the path without the tenant.
    unfoldable pub get_deploy_script : Result ApiError (List ℕ)
    unfolding streamed script_of tenant_path
    get_deploy_script = script_of (
        streamed (codes "agents/deployAgentsScript") (
          ask (record {
            method = codes "GET";
            path = tenant_path tenant (codes "agents/deployAgentsScript");
            query = (codes "scriptType", codes "SHELL") ∷ [];
            body = none;
            content_type = [];
            accept = codes "*/*";
          })))
