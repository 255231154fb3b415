-- ===== src/Tests/Administering.antt =====
-- The admin API's theorems on a site with the sample database.
use opsramp_agent_orchestrat.Prelude.{
  ℕ, ◌≡◌, ◌≢◌, ◌≤◌, refl, ap, false, some, List, [], ◌∷◌, All, length, map, codes, text_eq, arith,
  trim_space,
}
use opsramp_agent_orchestrat.Model.{Agent}
use opsramp_agent_orchestrat.Store.World.{Db, find, exists, upsert}
use opsramp_agent_orchestrat.Store.Agents.{has_uid, has_group_name}
use opsramp_agent_orchestrat.Store.Packages.{has_package_name}
use opsramp_agent_orchestrat.Store.Packages.Shelf.{
  Call, upload, delete, fetch, fetch_content, answers, promised_answers, shelf_of,
}
use opsramp_agent_orchestrat.Store.Packages.Refined.{answers-promised}
use opsramp_agent_orchestrat.Opamp.Registry.{connected_uids}
use opsramp_agent_orchestrat.Api.Http.{
  config_created, one_config, one_package, package_bytes, agents_listed, is_safe,
}
use opsramp_agent_orchestrat.Api.Agents.{group_label, handle_set_agent_group, handle_list_agents}
use opsramp_agent_orchestrat.Api.Groups.{handle_create_config, handle_get_group_config}
use opsramp_agent_orchestrat.Api.Packages.{
  package_from, handle_upsert_package, handle_get_package, handle_package_content,
}
use opsramp_agent_orchestrat.Api.Routes.{serve}
use opsramp_agent_orchestrat.Api.Served.{IsAuthorised, serve-writes, serve-IsAtomic}
use opsramp_agent_orchestrat.Api.Configs.{posted, handle_create_config-read_back}
use opsramp_agent_orchestrat.Api.Uploads.{handle_upsert_package-download}
use opsramp_agent_orchestrat.Api.Assigning.{
  handle_set_agent_group-blank, handle_set_agent_group-assigns,
}
use opsramp_agent_orchestrat.Api.Listing.{
  IsTrue, uid_of_row, by_last_seen, handle_list_agents-IsTrue,
}
use opsramp_agent_orchestrat.Tests.Samples.{web, files, web_group, agent, world}
use opsramp_agent_orchestrat.Tests.Sites as Sites
use opsramp_agent_orchestrat.Tests.Sites.{package_body, site, state, refused, to_group}

upload_changes : (serve site Sites.upload state).1.world.db ≢ state.world.db
unfolding serve handle_upsert_package text_eq trim_space has_package_name exists upsert
upload_changes e = ground (arith, ap (λ (d : Db). length d.packages) e)

serve-writes_example : (is_safe Sites.upload.method ≡ false) × IsAuthorised site Sites.upload
serve-writes_example = serve-writes site Sites.upload state upload_changes

refused_status : 400 ≤ (serve site refused state).0.status
unfolding serve text_eq trim_space
refused_status = omega arith

serve-IsAtomic_example : (serve site refused state).1.world.db ≡ state.world.db
serve-IsAtomic_example = serve-IsAtomic site refused state refused_status

handle_create_config-read_back_example :
    ((n : ℕ) × ((handle_create_config site web Sites.upload state).0 ≡ record {
      status = 201;
      payload = config_created (posted site web Sites.upload files (codes "note") state) n;
    }))
    × ((handle_get_group_config site web (handle_create_config site web Sites.upload state).1).0
        ≡ record {
          status = 200;
          payload = one_config (posted site web Sites.upload files (codes "note") state);
        })
unfolding find has_group_name text_eq
handle_create_config-read_back_example =
    handle_create_config-read_back site web Sites.upload files (codes "note") state web_group refl
      refl refl refl

handle_upsert_package-download_example :
    ((handle_upsert_package site Sites.upload state).0
      ≡ record { status = 201; payload = one_package (package_from site package_body (120 ∷ [])) })
    × ((handle_package_content site package_body.name
          (handle_upsert_package site Sites.upload state).1).0
        ≡ record { status = 200; payload = package_bytes package_body.name (120 ∷ []) })
    × ((handle_get_package site package_body.name
          (handle_upsert_package site Sites.upload state).1).0
        ≡ record {
          status = 200;
          payload =
              one_package (record (package_from site package_body (120 ∷ [])) {
                updated_at = state.world.now;
              });
        })
handle_upsert_package-download_example =
    handle_upsert_package-download site Sites.upload package_body (120 ∷ []) state refl refl refl
      refl

handle_set_agent_group-blank_example :
    ((handle_set_agent_group site (codes "0a") (to_group []) state).0.status ≡ 500)
    × ((handle_set_agent_group site (codes "0a") (to_group []) state).1.world.db ≡ state.world.db)
    × (group_label (some []) ≡ codes "(auto)")
unfolding find exists has_uid has_group_name text_eq
handle_set_agent_group-blank_example =
    handle_set_agent_group-blank site (codes "0a") (to_group []) agent state refl refl refl refl

handle_set_agent_group-assigns_example :
    ((handle_set_agent_group site (codes "0a") (to_group web) state).0.status ≡ 200)
    × (find
          (has_uid (codes "0a"))
          (handle_set_agent_group site (codes "0a") (to_group web) state).1.world.db.agents
        ≡ some (record agent { assigned_group = some web }))
unfolding find has_uid has_group_name text_eq
handle_set_agent_group-assigns_example =
    handle_set_agent_group-assigns site (codes "0a") (to_group web) agent state refl refl web
      web_group refl refl refl

handle_list_agents-IsTrue_example :
    (agents : List Agent) × ((handle_list_agents site state).0
      ≡ record { status = 200; payload = agents_listed agents (length agents) })
    × (map uid_of_row agents ≡ map uid_of_row (by_last_seen state.world.db))
    × All (IsTrue (connected_uids state.registry)) agents
handle_list_agents-IsTrue_example = handle_list_agents-IsTrue site state refl

-- Uploaded, read, deleted and read again.
abbrev calls : List (ℕ × Call)
calls =
    (10, upload (package_from site package_body (120 ∷ [])) (120 ∷ []))
    ∷ (11, fetch_content (codes "p1"))
    ∷ (12, delete (codes "p1"))
    ∷ (13, fetch (codes "p1"))
    ∷ []

answers-promised_example : answers calls world ≡ promised_answers calls (shelf_of world.db)
answers-promised_example = answers-promised calls (shelf_of world.db) world (refl, λ name. refl)
