-- ===== src/Api/Writing.antt =====
-- internal/api: a handler that writes answers with an error only where it has written nothing.
use opsramp_agent_orchestrat.Prelude.{
  ℕ, ◌≡◌, ◌<◌, ◌≤◌, refl, ap, inl, inr, Option, none, some, List, [], ◌∷◌, Text, Result, ok, err,
  Bool-cases, is_empty, arith,
}
use opsramp_agent_orchestrat.Store.World.{World}
use opsramp_agent_orchestrat.Store.Agents.{get_agent, set_agent_group}
use opsramp_agent_orchestrat.Store.Groups.{
  get_group, upsert_group, delete_group, create_config_version, set_current_config_version,
}
use opsramp_agent_orchestrat.Store.Packages.{
  get_package, upsert_package, delete_package, assign_package, unassign_package,
}
use opsramp_agent_orchestrat.Store.Sound.{
  get_agent-Reads, get_group-Reads, get_package-Reads, upsert_group-IsSound, delete_group-IsSound,
  create_config_version-IsSound, set_current_config_version-IsSound, upsert_package-IsSound,
  delete_package-IsSound, assign_package-IsSound, unassign_package-IsSound, set_agent_group-IsSound,
}
use opsramp_agent_orchestrat.Deploy.Start.{StartError, Started, start_job}
use opsramp_agent_orchestrat.Deploy.Start.Checks.{start_job-err}
use opsramp_agent_orchestrat.Opsramp.Connector.{Connector, ConfigureError, reconfigure}
use opsramp_agent_orchestrat.Opsramp.Connector.Settings.{reconfigure-err_db}
use opsramp_agent_orchestrat.Opsramp.Calls.{CallError, sync_now}
use opsramp_agent_orchestrat.Opsramp.Calls.Checked.{sync_now-err}
use opsramp_agent_orchestrat.Opamp.Proto.{config_map_hash_hex}
use opsramp_agent_orchestrat.Api.Http.{
  Request, Payload, State, Site, Handler, PackageBody, config_created, rolled_back,
  packages_changed, actor,
}
use opsramp_agent_orchestrat.Api.Spares.{
  IsAtomic, Succeeds, call-IsAtomic, call-IsAtomic-Reads, with_body-IsAtomic,
}
use opsramp_agent_orchestrat.Api.Agents.{try_push, assign_group, with_group, handle_set_agent_group}
use opsramp_agent_orchestrat.Api.Groups.{
  push_and_write, handle_upsert_group, handle_delete_group, handle_create_config,
  handle_rollback_config, handle_assign_package, handle_unassign_package,
}
use opsramp_agent_orchestrat.Api.Packages.{
  package_from, with_content, handle_upsert_package, handle_delete_package,
}
use opsramp_agent_orchestrat.Api.Deploy.{source_of, started, handle_deploy_start}
use opsramp_agent_orchestrat.Api.Connector.{
  settings_from, reconfigured, handle_opsramp_set_config, sync_written, handle_opsramp_sync,
}

module _ (s : Site) where
  assign_group-IsAtomic : (uid : Text) (g : Option Text) → IsAtomic (assign_group s uid g)
  unfolding assign_group try_push
  assign_group-IsAtomic uid g =
      call-IsAtomic s (set_agent_group uid g) _ (set_agent_group-IsSound uid g)
        (λ u st. omega arith)

  with_group-IsAtomic : (g : Option Text) (k : Handler) → IsAtomic k → IsAtomic (with_group s g k)
  unfolding with_group
  with_group-IsAtomic none k q = q
  with_group-IsAtomic (some []) k q = q
  with_group-IsAtomic (some (c ∷ t)) k q =
      call-IsAtomic-Reads s (get_group (c ∷ t)) _ (get_group-Reads (c ∷ t)) (λ g. q)

  pub handle_set_agent_group-IsAtomic :
      (uid : Text) (r : Request) → IsAtomic (handle_set_agent_group s uid r)
  unfolding handle_set_agent_group
  handle_set_agent_group-IsAtomic uid r = with_body-IsAtomic (s.bodies.group_of r.body) _ λ g.
      call-IsAtomic-Reads s (get_agent uid) _ (get_agent-Reads uid)
        (λ a. with_group-IsAtomic g (assign_group s uid g) (assign_group-IsAtomic uid g))

  pub handle_upsert_group-IsAtomic :
      (name : Text) (r : Request) → IsAtomic (handle_upsert_group s name r)
  unfolding handle_upsert_group
  handle_upsert_group-IsAtomic name r = with_body-IsAtomic (s.bodies.group_fields r.body) _ λ f.
      call-IsAtomic s (upsert_group name f.0 f.1) _ (upsert_group-IsSound name f.0 f.1)
        (λ u st. omega arith)

  pub handle_delete_group-IsAtomic : (name : Text) → IsAtomic (handle_delete_group s name)
  unfolding handle_delete_group
  handle_delete_group-IsAtomic name =
      call-IsAtomic s (delete_group name) _ (delete_group-IsSound name) (λ u st. omega arith)

  push_and_write-Succeeds :
      (name : Text) (code : ℕ) (p : ℕ → Payload)
      → code < 400
      → Succeeds (push_and_write s name code p)
  unfolding push_and_write
  push_and_write-Succeeds name code p h st = h

  pub handle_create_config-IsAtomic :
      (name : Text) (r : Request) → IsAtomic (handle_create_config s name r)
  unfolding handle_create_config
  handle_create_config-IsAtomic name r = with_body-IsAtomic (s.bodies.config_fields r.body) _ λ f.
      elim (Bool-cases (is_empty f.0)) [
        | inl e ↦ rw e (λ st h. refl)
        | inr e ↦ rw e (
            call-IsAtomic-Reads s (get_group name) _ (get_group-Reads name) λ g.
              call-IsAtomic s
                (create_config_version name f.0 (config_map_hash_hex s.setup.offering.sha256 f.0)
                  f.1 (actor r))
                _
                (create_config_version-IsSound name f.0
                  (config_map_hash_hex s.setup.offering.sha256 f.0) f.1 (actor r))
                (λ cv. push_and_write-Succeeds name 201 (config_created cv) (omega arith)))
      ]

  pub handle_rollback_config-IsAtomic :
      (name : Text) (r : Request) → IsAtomic (handle_rollback_config s name r)
  unfolding handle_rollback_config
  handle_rollback_config-IsAtomic name r = with_body-IsAtomic (s.bodies.version_of r.body) _ λ v.
      call-IsAtomic s (set_current_config_version name v) _
        (set_current_config_version-IsSound name v)
        (λ u. push_and_write-Succeeds name 200 (rolled_back v) (omega arith))

  pub handle_assign_package-IsAtomic :
      (name : Text) (r : Request) → IsAtomic (handle_assign_package s name r)
  unfolding handle_assign_package
  handle_assign_package-IsAtomic name r = with_body-IsAtomic (s.bodies.package_of r.body) _ λ pkg.
      call-IsAtomic-Reads s (get_package pkg) _ (get_package-Reads pkg) λ p.
        call-IsAtomic s (assign_package name pkg) _ (assign_package-IsSound name pkg)
          (λ u. push_and_write-Succeeds name 200 packages_changed (omega arith))

  pub handle_unassign_package-IsAtomic :
      (name pkg : Text) → IsAtomic (handle_unassign_package s name pkg)
  unfolding handle_unassign_package
  handle_unassign_package-IsAtomic name pkg =
      call-IsAtomic s (unassign_package name pkg) _ (unassign_package-IsSound name pkg)
        (λ u. push_and_write-Succeeds name 200 packages_changed (omega arith))

  with_content-IsAtomic : (b : PackageBody) (o : Option (List ℕ)) → IsAtomic (with_content s b o)
  unfolding with_content
  with_content-IsAtomic b none = λ st h. refl
  with_content-IsAtomic b (some content) =
      call-IsAtomic s (upsert_package (package_from s b content) content) _
        (upsert_package-IsSound (package_from s b content) content) (λ u st. omega arith)

  pub handle_upsert_package-IsAtomic : (r : Request) → IsAtomic (handle_upsert_package s r)
  unfolding handle_upsert_package
  handle_upsert_package-IsAtomic r = with_body-IsAtomic (s.bodies.package_fields r.body) _ λ b.
      elim (Bool-cases (is_empty b.name)) [
        | inl e ↦ rw e (λ st h. refl)
        | inr e ↦ rw e (with_content-IsAtomic b (s.base64 b.content_base64))
      ]

  pub handle_delete_package-IsAtomic : (name : Text) → IsAtomic (handle_delete_package s name)
  unfolding handle_delete_package
  handle_delete_package-IsAtomic name =
      call-IsAtomic s (delete_package name) _ (delete_package-IsSound name) (λ u st. omega arith)

  started-IsAtomic :
      (p : Result StartError Started × World) (st : State)
      → ((e : StartError) → p.0 ≡ err e → p.1.db ≡ st.world.db)
      → 400 ≤ (started s p st).0.status
      → (started s p st).1.world.db ≡ st.world.db
  unfolding started
  started-IsAtomic (ok (job, hosts, per), w) st q h = absurd (omega (arith, h))
  started-IsAtomic (err e, w) st q h = q e refl

  pub handle_deploy_start-IsAtomic : (r : Request) → IsAtomic (handle_deploy_start s r)
  unfolding handle_deploy_start
  handle_deploy_start-IsAtomic r = with_body-IsAtomic (s.bodies.start_fields r.body) _ λ f st h.
      started-IsAtomic
        (start_job s.syntax (source_of s st.connector) (s.new_id st.world.now)
          (record f { created_by = actor r }) st.world)
        st
        (start_job-err s.syntax (source_of s st.connector) (s.new_id st.world.now)
          (record f { created_by = actor r }) st.world)
        h

  reconfigured-IsAtomic :
      (p : Result ConfigureError (Unit {0}) × Connector × World) (st : State)
      → ((e : ConfigureError) → p.0 ≡ err e → p.2.db ≡ st.world.db)
      → 400 ≤ (reconfigured s p st).0.status
      → (reconfigured s p st).1.world.db ≡ st.world.db
  unfolding reconfigured
  reconfigured-IsAtomic (ok u, c, w) st q h = absurd (omega (arith, h))
  reconfigured-IsAtomic (err e, c, w) st q h = q e refl

  pub handle_opsramp_set_config-IsAtomic : (r : Request) → IsAtomic (handle_opsramp_set_config s r)
  unfolding handle_opsramp_set_config
  handle_opsramp_set_config-IsAtomic r =
      with_body-IsAtomic (s.bodies.settings_fields r.body) _ λ b st h.
        reconfigured-IsAtomic
          (reconfigure s.remote.ensure_token (settings_from b) st.connector st.world) st
          (reconfigure-err_db s.remote.ensure_token (settings_from b) st.connector st.world) h

  sync_written-IsAtomic :
      (p : Result CallError ℕ × World) (st : State)
      → ((e : CallError) → p.0 ≡ err e → p.1 ≡ st.world)
      → 400 ≤ (sync_written s p st).0.status
      → (sync_written s p st).1.world.db ≡ st.world.db
  unfolding sync_written
  sync_written-IsAtomic (ok n, w) st q h = absurd (omega (arith, h))
  sync_written-IsAtomic (err e, w) st q h = ap (λ (v : World). v.db) (q e refl)

  pub handle_opsramp_sync-IsAtomic : IsAtomic (handle_opsramp_sync s)
  unfolding handle_opsramp_sync
  handle_opsramp_sync-IsAtomic st h =
      sync_written-IsAtomic (sync_now s.remote st.connector st.world) st
        (sync_now-err s.remote st.connector st.world) h
