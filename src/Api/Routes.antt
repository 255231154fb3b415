-- ===== src/Api/Routes.antt =====
-- internal/api/api.go: the routes. A path that no pattern names falls to the page for GET and HEAD, and
-- to the mux's 405 for any other method, since the page's pattern covers every path.
use opsramp_agent_orchestrat.Prelude.{
  Bool, true, false, Option, none, some, List, [], ◌∷◌, ◌++◌, if◌then◌else◌, Text, codes, text_eq,
  Result, ok, err,
}
use opsramp_agent_orchestrat.Store.World.{World, Error}
use opsramp_agent_orchestrat.Store.Groups.{list_groups}
use opsramp_agent_orchestrat.Api.Http.{
  Method, get_method, head_method, post_method, put_method, delete_method, Request, status_word,
  page, plain_text, is_safe, Site, Handler, write_json, write_err, with_world, admits,
}
use opsramp_agent_orchestrat.Api.Agents.{
  handle_list_agents, handle_get_agent, handle_set_agent_group, handle_push_agent,
  handle_list_events,
}
use opsramp_agent_orchestrat.Api.Groups.{
  handle_list_groups, handle_get_group, handle_upsert_group, handle_delete_group,
  handle_get_group_config, handle_list_config_versions, handle_create_config,
  handle_rollback_config, handle_list_group_packages, handle_assign_package,
  handle_unassign_package,
}
use opsramp_agent_orchestrat.Api.Packages.{
  handle_list_packages, handle_get_package, handle_upsert_package, handle_delete_package,
  handle_package_content,
}
use opsramp_agent_orchestrat.Api.Deploy.{
  handle_deploy_start, handle_reconcile, handle_deploy_list, handle_deploy_get,
}
use opsramp_agent_orchestrat.Api.Connector.{
  handle_opsramp_get_config, handle_opsramp_set_config, handle_opsramp_status, handle_opsramp_test,
  handle_opsramp_token, handle_opsramp_agents, handle_opsramp_sync, handle_opsramp_agent_info,
  handle_opsramp_updates, handle_opsramp_assign_policy, handle_opsramp_assign_profile,
  handle_opsramp_download,
}
use opsramp_agent_orchestrat.Model.{Group}

-- A segment of a pattern: a word of the source, or a wildcard.
pub data Segment : Type 0 where
  word : Text → Segment
  wild : Segment

-- The values of the wildcards.
unfoldable pub path_match : List Segment → List Text → Option (List Text)
path_match [] [] = some []
path_match [] (s ∷ segs) = none
path_match (p ∷ ps) [] = none
path_match (word w ∷ ps) (s ∷ segs) =
    let rest = path_match ps segs in if text_eq w s then rest else none
path_match (wild ∷ ps) (s ∷ segs) = elim (path_match ps segs) [
  | none ↦ none
  | some vs ↦ some (s ∷ vs)
]

-- A registered pattern, with a handler that reads as many path values as the pattern has.
pub data Target : Type 0 where
  plain : (Request → Handler) → Target
  with_value : (Text → Request → Handler) → Target
  with_values : (Text → Text → Request → Handler) → Target

pub record Entry : Type 0 where
  pub method : Method
  pub pattern : List Segment
  pub target : Target

unfoldable pub bound : Target → List Text → Option (Request → Handler)
bound (plain h) [] = some h
bound (plain h) (v ∷ vs) = none
bound (with_value h) [] = none
bound (with_value h) (v ∷ []) = some (h v)
bound (with_value h) (v ∷ u ∷ vs) = none
bound (with_values h) [] = none
bound (with_values h) (v ∷ []) = none
bound (with_values h) (v ∷ u ∷ []) = some (h v u)
bound (with_values h) (v ∷ u ∷ t ∷ vs) = none

-- A pattern for GET stands for HEAD too.
unfoldable pub allows : Method → Method → Bool
allows get_method get_method = true
allows get_method head_method = true
allows post_method post_method = true
allows put_method put_method = true
allows delete_method delete_method = true
allows _ _ = false

unfoldable pub matched : Target → Option (List Text) → Option (Request → Handler)
unfolding bound
matched t none = none
matched t (some vs) = bound t vs

unfoldable pub entry_handler : Entry → Request → Option (Request → Handler)
unfolding allows matched path_match
entry_handler e r =
    if allows e.method r.method then matched e.target (path_match e.pattern r.path) else none

unfoldable pub ready : Site → Result Error (List Group) × World → Handler
ready s (ok groups, w) st = write_json 200 (status_word (codes "ready")) (with_world st w)
ready s (err e, w) st = write_err 503 (codes "database unavailable") (with_world st w)

unfoldable pub handle_ready : Site → Handler
unfolding ready list_groups
handle_ready s st = ready s (list_groups st.world) st

-- The page itself is at the root only.
unfoldable pub ui_at : List Text → Handler
ui_at [] = write_json 200 page
ui_at (seg ∷ segs) = write_json 404 (plain_text (codes "404 page not found"))

unfoldable pub handle_ui : Request → Handler
unfolding ui_at
handle_ui r = ui_at r.path

abbrev api : List Segment → List Segment
api rest = word (codes "api") ∷ word (codes "v1") ∷ rest

abbrev w : Text → List Segment
w s = word s ∷ []

abbrev on : Method → List Segment → Target → Entry
on m p t = record { method = m; pattern = p; target = t }

module _ (s : Site) where
  unfoldable pub basic_routes : List Entry
  basic_routes =
      on get_method (w (codes "healthz")) (plain (λ _. write_json 200 (status_word (codes "ok"))))
      ∷ on get_method (w (codes "readyz")) (plain (λ _. handle_ready s))
      ∷ on get_method (api (word (codes "agents") ∷ [])) (plain (λ _. handle_list_agents s))
      ∷ on get_method (api (word (codes "agents") ∷ wild ∷ []))
          (with_value (λ v _. handle_get_agent s v))
      ∷ on put_method (api (word (codes "agents") ∷ wild ∷ word (codes "group") ∷ []))
          (with_value (handle_set_agent_group s))
      ∷ on post_method (api (word (codes "agents") ∷ wild ∷ word (codes "push") ∷ []))
          (with_value (λ v _. handle_push_agent s v))
      ∷ on get_method (api (word (codes "events") ∷ [])) (plain (λ _. handle_list_events s))
      ∷ []

  unfoldable pub group_routes : List Entry
  group_routes =
      on get_method (api (word (codes "groups") ∷ [])) (plain (λ _. handle_list_groups s))
      ∷ on get_method (api (word (codes "groups") ∷ wild ∷ []))
          (with_value (λ v _. handle_get_group s v))
      ∷ on put_method (api (word (codes "groups") ∷ wild ∷ [])) (with_value (handle_upsert_group s))
      ∷ on delete_method (api (word (codes "groups") ∷ wild ∷ []))
          (with_value (λ v _. handle_delete_group s v))
      ∷ on get_method (api (word (codes "groups") ∷ wild ∷ word (codes "config") ∷ []))
          (with_value (λ v _. handle_get_group_config s v))
      ∷ on get_method
          (api
            (word (codes "groups") ∷ wild ∷ word (codes "config") ∷ word (codes "versions") ∷ []))
          (with_value (λ v _. handle_list_config_versions s v))
      ∷ on post_method (api (word (codes "groups") ∷ wild ∷ word (codes "config") ∷ []))
          (with_value (handle_create_config s))
      ∷ on post_method
          (api
            (word (codes "groups") ∷ wild ∷ word (codes "config") ∷ word (codes "rollback") ∷ []))
          (with_value (handle_rollback_config s))
      ∷ on get_method (api (word (codes "groups") ∷ wild ∷ word (codes "packages") ∷ []))
          (with_value (λ v _. handle_list_group_packages s v))
      ∷ on post_method (api (word (codes "groups") ∷ wild ∷ word (codes "packages") ∷ []))
          (with_value (handle_assign_package s))
      ∷ on delete_method (api (word (codes "groups") ∷ wild ∷ word (codes "packages") ∷ wild ∷ []))
          (with_values (λ v u _. handle_unassign_package s v u))
      ∷ []

  unfoldable pub package_routes : List Entry
  package_routes =
      on get_method (api (word (codes "packages") ∷ [])) (plain (λ _. handle_list_packages s))
      ∷ on get_method (api (word (codes "packages") ∷ wild ∷ []))
          (with_value (λ v _. handle_get_package s v))
      ∷ on post_method (api (word (codes "packages") ∷ [])) (plain (handle_upsert_package s))
      ∷ on delete_method (api (word (codes "packages") ∷ wild ∷ []))
          (with_value (λ v _. handle_delete_package s v))
      ∷ on get_method (api (word (codes "packages") ∷ wild ∷ word (codes "content") ∷ []))
          (with_value (λ v _. handle_package_content s v))
      ∷ []

  unfoldable pub opsramp_routes : List Entry
  opsramp_routes =
      on get_method (api (word (codes "opsramp") ∷ word (codes "config") ∷ []))
        (plain (λ _. handle_opsramp_get_config))
      ∷ on put_method (api (word (codes "opsramp") ∷ word (codes "config") ∷ []))
          (plain (handle_opsramp_set_config s))
      ∷ on get_method (api (word (codes "opsramp") ∷ word (codes "status") ∷ []))
          (plain (λ _. handle_opsramp_status s))
      ∷ on post_method (api (word (codes "opsramp") ∷ word (codes "test") ∷ []))
          (plain (handle_opsramp_test s))
      ∷ on post_method (api (word (codes "opsramp") ∷ word (codes "token") ∷ []))
          (plain (handle_opsramp_token s))
      ∷ on get_method (api (word (codes "opsramp") ∷ word (codes "agents") ∷ []))
          (plain (λ _. handle_opsramp_agents s))
      ∷ on post_method (api (word (codes "opsramp") ∷ word (codes "sync") ∷ []))
          (plain (λ _. handle_opsramp_sync s))
      ∷ on get_method
          (api (word (codes "opsramp") ∷ word (codes "agents") ∷ wild ∷ word (codes "info") ∷ []))
          (with_value (λ v _. handle_opsramp_agent_info s v))
      ∷ on post_method (api (word (codes "opsramp") ∷ word (codes "updates") ∷ []))
          (plain (handle_opsramp_updates s))
      ∷ on post_method
          (api
            (word (codes "opsramp") ∷ word (codes "policies") ∷ wild ∷ word (codes "devices") ∷ []))
          (with_value (handle_opsramp_assign_policy s))
      ∷ on post_method
          (api
            (word (codes "opsramp") ∷ word (codes "profiles") ∷ wild ∷ word (codes "devices") ∷ []))
          (with_value (handle_opsramp_assign_profile s))
      ∷ on get_method
          (api (
            word (codes "opsramp")
            ∷ word (codes "agents")
            ∷ wild
            ∷ word (codes "download")
            ∷ wild
            ∷ []))
          (with_values (λ v u _. handle_opsramp_download s v u))
      ∷ []

  unfoldable pub deploy_routes : List Entry
  deploy_routes =
      on post_method (api (word (codes "deploy") ∷ [])) (plain (handle_deploy_start s))
      ∷ on get_method (api (word (codes "deploy") ∷ word (codes "jobs") ∷ []))
          (plain (λ _. handle_deploy_list s))
      ∷ on get_method (api (word (codes "deploy") ∷ word (codes "jobs") ∷ wild ∷ []))
          (with_value (λ v _. handle_deploy_get s v))
      ∷ on get_method (api (word (codes "reconcile") ∷ [])) (plain (λ _. handle_reconcile s))
      ∷ []

  -- No two patterns match the same request, so that their order does not matter.
  unfoldable pub routes : List Entry
  unfolding basic_routes group_routes package_routes opsramp_routes deploy_routes
  routes = basic_routes ++ (group_routes ++ (package_routes ++ (opsramp_routes ++ deploy_routes)))

-- What the mux does where no pattern of the API matches.
unfoldable pub fall_through : Request → Handler
unfolding handle_ui is_safe
fall_through r =
    if is_safe r.method
    then handle_ui r
    else write_json 405 (plain_text (codes "Method Not Allowed"))

unfoldable pub choose : List Entry → Request → Handler
unfolding entry_handler fall_through
choose [] r = fall_through r
choose (e ∷ es) r = elim (entry_handler e r) [ none ↦ choose es r | some h ↦ h r ]

-- The wired handler.
unfoldable pub serve : Site → Request → Handler
unfolding admits choose routes
serve s r =
    if admits s.admin_token r
    then choose (routes s) r
    else write_err 401 (codes "missing or invalid admin token")
