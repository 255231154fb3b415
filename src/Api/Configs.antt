-- ===== src/Api/Configs.antt =====
-- internal/api/groups.go: a config that was posted, against reading it back.
use opsramp_agent_orchestrat.Prelude.{
  ℕ, ◌≡◌, refl, ap, ◌∙◌, true, false, Option, some, Text, Result, ok, is_empty,
}
use opsramp_agent_orchestrat.Prelude.Dicts.{Dict}
use opsramp_agent_orchestrat.Model.{Group, ConfigFile, ConfigVersion}
use opsramp_agent_orchestrat.Store.World.{Error, World, find, exists, require}
use opsramp_agent_orchestrat.Store.Rows.{exists_lem}
use opsramp_agent_orchestrat.Store.Steps.{IsReliable, read-IsReliable}
use opsramp_agent_orchestrat.Store.Agents.{has_group_name}
use opsramp_agent_orchestrat.Store.Groups.{get_group, current_config, get_current_config}
use opsramp_agent_orchestrat.Store.Groups.Versions.{
  new_version, with_version, create_config_version-IsReliable, current_config-with_version,
}
use opsramp_agent_orchestrat.Opamp.Proto.{config_map_hash_hex}
use opsramp_agent_orchestrat.Opamp.Push.{push_group}
use opsramp_agent_orchestrat.Opamp.Push.Pushing.{push_group-IsReliable}
use opsramp_agent_orchestrat.Api.Http.{
  Request, Response, Payload, config_created, one_config, State, Site, write_json, with_world,
  stored, actor,
}
use opsramp_agent_orchestrat.Api.Groups.{
  push_and_write, handle_create_config, handle_get_group_config,
}

-- The version that a posted config makes.
abbrev pub posted : Site → Text → Request → Dict ConfigFile → Text → State → ConfigVersion
posted s name r files note st =
    new_version name files (config_map_hash_hex s.setup.offering.sha256 files) note (actor r)
      st.world

get_group-found :
    (name : Text) (g : Group) (w : World)
    → IsReliable w
    → find (has_group_name name) w.db.groups ≡ some g
    → get_group name w ≡ (ok g, w)
unfolding get_group require
get_group-found name g w r there =
    read-IsReliable (λ db. require (find (has_group_name name) db.groups)) w r
    ∙ ap (λ (o : Option Group). (require o, w)) there

push_and_write-IsReliable :
    (s : Site) (name : Text) (code : ℕ) (p : ℕ → Payload) (st : State)
    → IsReliable st.world
    → push_and_write s name code p st ≡ (
      record { status = code; payload = p (push_group s.setup s.send st.registry name st.world).0 },
      st,
    )
unfolding push_and_write
push_and_write-IsReliable s name code p st r =
    ap
      (λ (v : World).
        write_json code (p (push_group s.setup s.send st.registry name st.world).0)
          (with_world st v))
      (push_group-IsReliable s.setup s.send st.registry name st.world r)

module _ (s : Site) (name : Text) (r : Request) (files : Dict ConfigFile) (note : Text) (st : State)
    (g : Group) (parsed : s.bodies.config_fields r.body ≡ ok (files, note))
    (some_file : is_empty files ≡ false) (reliable : IsReliable st.world)
    (there : find (has_group_name name) st.world.db.groups ≡ some g) where
  known : exists (has_group_name name) st.world.db.groups ≡ true
  known = exists_lem (has_group_name name) st.world.db.groups ∙ rw there refl

  handle_create_config-IsReliable :
      handle_create_config s name r st
      ≡ push_and_write s name 201
          (config_created (posted s name r files note st))
          (with_world st (with_version name (posted s name r files note st) st.world))
  unfolding handle_create_config
  handle_create_config-IsReliable =
      rw
        (
          parsed,
          some_file,
          get_group-found name g st.world reliable there,
          create_config_version-IsReliable name files
              (config_map_hash_hex s.setup.offering.sha256 files) note (actor r) st.world reliable
              known,
        )
        refl

  -- Posting a config of at least one file for a group that is there, while the database answers, is
  -- answered with 201 and the new version, and then reading the group's config gives that version: the
  -- next number, the posted files, and their hash.
  pub handle_create_config-read_back :
      ((n : ℕ) × ((handle_create_config s name r st).0
          ≡ record { status = 201; payload = config_created (posted s name r files note st) n }))
      × ((handle_get_group_config s name (handle_create_config s name r st).1).0
          ≡ record { status = 200; payload = one_config (posted s name r files note st) })
  unfolding handle_get_group_config get_current_config with_version
  handle_create_config-read_back =
      let row : ConfigVersion = posted s name r files note st in
      let behind : State = with_world st (with_version name row st.world) in
      let done =
        handle_create_config-IsReliable
        ∙ push_and_write-IsReliable s name 201 (config_created row) behind reliable in
      (
        (
          (push_group s.setup s.send behind.registry name behind.world).0,
          ap (λ (p : Response × State). p.0) done,
        ),
        ap (λ (p : Response × State). (handle_get_group_config s name p.1).0) done
            ∙ ap
                (λ (p : Result Error ConfigVersion × World).
                  (stored s p (λ cv. write_json 200 (one_config cv)) behind).0)
                (read-IsReliable (current_config name) behind.world reliable
                  ∙ ap (λ (q : Result Error ConfigVersion). (q, behind.world))
                      (current_config-with_version name row st.world known refl refl)),
      )
