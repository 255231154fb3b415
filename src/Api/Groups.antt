-- ===== src/Api/Groups.antt =====
-- internal/api/groups.go: groups, their configs and their packages.
use opsramp_agent_orchestrat.Prelude.{ℕ, Text, is_empty, if◌then◌else◌, codes}
use opsramp_agent_orchestrat.Store.Groups.{
  list_groups, get_group, upsert_group, delete_group, get_current_config, list_config_versions,
  create_config_version, set_current_config_version,
}
use opsramp_agent_orchestrat.Store.Packages.{
  get_package, assign_package, unassign_package, list_group_packages,
}
use opsramp_agent_orchestrat.Opamp.Proto.{config_map_hash_hex}
use opsramp_agent_orchestrat.Opamp.Push.{push_group}
use opsramp_agent_orchestrat.Api.Http.{
  Request, Payload, done, groups_listed, one_group, one_config, versions_listed, config_created,
  rolled_back, packages_changed, packages_listed, Site, Handler, write_json, write_err, with_world,
  call, with_body, actor,
}

unfoldable pub handle_list_groups : Site → Handler
unfolding list_groups
handle_list_groups s = call s list_groups (λ groups. write_json 200 (groups_listed groups))

unfoldable pub handle_get_group : Site → Text → Handler
unfolding get_group
handle_get_group s name = call s (get_group name) (λ g. write_json 200 (one_group g))

unfoldable pub handle_upsert_group : Site → Text → Request → Handler
unfolding upsert_group
handle_upsert_group s name r = with_body (s.bodies.group_fields r.body) λ (description, selector).
    call s (upsert_group name description selector) (λ _. write_json 200 done)

unfoldable pub handle_delete_group : Site → Text → Handler
unfolding delete_group
handle_delete_group s name = call s (delete_group name) (λ _. write_json 200 done)

unfoldable pub handle_get_group_config : Site → Text → Handler
unfolding get_current_config
handle_get_group_config s name =
    call s (get_current_config name) (λ cv. write_json 200 (one_config cv))

unfoldable pub handle_list_config_versions : Site → Text → Handler
unfolding list_config_versions
handle_list_config_versions s name =
    call s (list_config_versions name) (λ vers. write_json 200 (versions_listed vers))

-- `PushGroup`, and the answer with the number of agents.
unfoldable pub push_and_write : Site → Text → ℕ → (ℕ → Payload) → Handler
unfolding push_group
push_and_write s name code payload st =
    let out = push_group s.setup s.send st.registry name st.world in
    write_json code (payload out.0) (with_world st out.1)

unfoldable pub handle_create_config : Site → Text → Request → Handler
unfolding push_and_write get_group create_config_version config_map_hash_hex actor
handle_create_config s name r = with_body (s.bodies.config_fields r.body) λ (files, note).
    if is_empty files
    then write_err 400 (codes "at least one config file is required")
    else call s (get_group name) λ _.
      call s
        (create_config_version name files (config_map_hash_hex s.setup.offering.sha256 files) note
          (actor r))
        (λ cv. push_and_write s name 201 (config_created cv))

unfoldable pub handle_rollback_config : Site → Text → Request → Handler
unfolding push_and_write set_current_config_version
handle_rollback_config s name r = with_body (s.bodies.version_of r.body) λ version.
    call s (set_current_config_version name version)
      (λ _. push_and_write s name 200 (rolled_back version))

unfoldable pub handle_list_group_packages : Site → Text → Handler
unfolding list_group_packages
handle_list_group_packages s name =
    call s (list_group_packages name) (λ pkgs. write_json 200 (packages_listed pkgs))

unfoldable pub handle_assign_package : Site → Text → Request → Handler
unfolding push_and_write get_package assign_package
handle_assign_package s name r = with_body (s.bodies.package_of r.body) λ pkg.
    call s (get_package pkg)
      λ _. call s (assign_package name pkg) (λ _. push_and_write s name 200 packages_changed)

unfoldable pub handle_unassign_package : Site → Text → Text → Handler
unfolding push_and_write unassign_package
handle_unassign_package s name pkg =
    call s (unassign_package name pkg) (λ _. push_and_write s name 200 packages_changed)
