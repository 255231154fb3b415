-- ===== src/Api/Proper.antt =====
-- internal/api/api.go: which routes write nothing, and which write all or nothing.
use opsramp_agent_orchestrat.Prelude.{
  ◌≡◌, ◌⊎◌, refl, inl, inr, false, List, ◌++◌, All, All-append, Text,
}
use opsramp_agent_orchestrat.Api.Http.{Request, Site, Handler, is_safe}
use opsramp_agent_orchestrat.Api.Spares.{Spares, IsAtomic}
use opsramp_agent_orchestrat.Api.Routes.{
  Target, plain, with_value, with_values, Entry, basic_routes, group_routes, package_routes,
  opsramp_routes, deploy_routes, routes,
}
use opsramp_agent_orchestrat.Api.Reading.{
  handle_ready-Spares, handle_list_agents-Spares, handle_get_agent-Spares, handle_push_agent-Spares,
  handle_list_events-Spares, handle_list_groups-Spares, handle_get_group-Spares,
  handle_get_group_config-Spares, handle_list_config_versions-Spares,
  handle_list_group_packages-Spares, handle_list_packages-Spares, handle_get_package-Spares,
  handle_package_content-Spares, handle_reconcile-Spares, handle_deploy_list-Spares,
  handle_deploy_get-Spares,
}
use opsramp_agent_orchestrat.Api.Relaying.{
  handle_opsramp_get_config-Spares, handle_opsramp_status-Spares, handle_opsramp_test-Spares,
  handle_opsramp_token-Spares, handle_opsramp_agents-Spares, handle_opsramp_agent_info-Spares,
  handle_opsramp_updates-Spares, handle_opsramp_assign_policy-Spares,
  handle_opsramp_assign_profile-Spares, handle_opsramp_download-Spares,
}
use opsramp_agent_orchestrat.Api.Writing.{
  handle_set_agent_group-IsAtomic, handle_upsert_group-IsAtomic, handle_delete_group-IsAtomic,
  handle_create_config-IsAtomic, handle_rollback_config-IsAtomic, handle_assign_package-IsAtomic,
  handle_unassign_package-IsAtomic, handle_upsert_package-IsAtomic, handle_delete_package-IsAtomic,
  handle_deploy_start-IsAtomic, handle_opsramp_set_config-IsAtomic, handle_opsramp_sync-IsAtomic,
}

-- What holds of each handler that a target stands for.
abbrev pub Obeys : (Handler → Type 0) → Target → Type 0
Obeys P (plain h) = (r : Request) → P (h r)
Obeys P (with_value h) = (v : Text) (r : Request) → P (h v r)
Obeys P (with_values h) = (v u : Text) (r : Request) → P (h v u r)

-- A route writes nothing, or its method is not safe and it is atomic.
abbrev pub IsProper : Entry → Type 0
IsProper e = Obeys Spares e.target ⊎ ((is_safe e.method ≡ false) × Obeys IsAtomic e.target)

module _ (s : Site) where
  basic_routes-IsProper : All IsProper (basic_routes s)
  unfolding basic_routes is_safe
  basic_routes-IsProper = (
    inl (λ r st. refl),
    (
      inl (λ r. handle_ready-Spares s),
      (
        inl (λ r. handle_list_agents-Spares s),
        (
          inl (λ v r. handle_get_agent-Spares s v),
          (
            inr (refl, λ v r. handle_set_agent_group-IsAtomic s v r),
            (
              inl (λ v r. handle_push_agent-Spares s v),
              (inl (λ r. handle_list_events-Spares s), tt),
            ),
          ),
        ),
      ),
    ),
  )

  group_routes-IsProper : All IsProper (group_routes s)
  unfolding group_routes is_safe
  group_routes-IsProper = (
    inl (λ r. handle_list_groups-Spares s),
    (
      inl (λ v r. handle_get_group-Spares s v),
      (
        inr (refl, λ v r. handle_upsert_group-IsAtomic s v r),
        (
          inr (refl, λ v r. handle_delete_group-IsAtomic s v),
          (
            inl (λ v r. handle_get_group_config-Spares s v),
            (
              inl (λ v r. handle_list_config_versions-Spares s v),
              (
                inr (refl, λ v r. handle_create_config-IsAtomic s v r),
                (
                  inr (refl, λ v r. handle_rollback_config-IsAtomic s v r),
                  (
                    inl (λ v r. handle_list_group_packages-Spares s v),
                    (
                      inr (refl, λ v r. handle_assign_package-IsAtomic s v r),
                      (inr (refl, λ v u r. handle_unassign_package-IsAtomic s v u), tt),
                    ),
                  ),
                ),
              ),
            ),
          ),
        ),
      ),
    ),
  )

  package_routes-IsProper : All IsProper (package_routes s)
  unfolding package_routes is_safe
  package_routes-IsProper = (
    inl (λ r. handle_list_packages-Spares s),
    (
      inl (λ v r. handle_get_package-Spares s v),
      (
        inr (refl, λ r. handle_upsert_package-IsAtomic s r),
        (
          inr (refl, λ v r. handle_delete_package-IsAtomic s v),
          (inl (λ v r. handle_package_content-Spares s v), tt),
        ),
      ),
    ),
  )

  opsramp_routes-IsProper : All IsProper (opsramp_routes s)
  unfolding opsramp_routes is_safe
  opsramp_routes-IsProper = (
    inl (λ r. handle_opsramp_get_config-Spares s),
    (
      inr (refl, λ r. handle_opsramp_set_config-IsAtomic s r),
      (
        inl (λ r. handle_opsramp_status-Spares s),
        (
          inl (λ r. handle_opsramp_test-Spares s r),
          (
            inl (λ r. handle_opsramp_token-Spares s r),
            (
              inl (λ r. handle_opsramp_agents-Spares s),
              (
                inr (refl, λ r. handle_opsramp_sync-IsAtomic s),
                (
                  inl (λ v r. handle_opsramp_agent_info-Spares s v),
                  (
                    inl (λ r. handle_opsramp_updates-Spares s r),
                    (
                      inl (λ v r. handle_opsramp_assign_policy-Spares s v r),
                      (
                        inl (λ v r. handle_opsramp_assign_profile-Spares s v r),
                        (inl (λ v u r. handle_opsramp_download-Spares s v u), tt),
                      ),
                    ),
                  ),
                ),
              ),
            ),
          ),
        ),
      ),
    ),
  )

  deploy_routes-IsProper : All IsProper (deploy_routes s)
  unfolding deploy_routes is_safe
  deploy_routes-IsProper = (
    inr (refl, λ r. handle_deploy_start-IsAtomic s r),
    (
      inl (λ r. handle_deploy_list-Spares s),
      (inl (λ v r. handle_deploy_get-Spares s v), (inl (λ r. handle_reconcile-Spares s), tt)),
    ),
  )

  pub routes-IsProper : All IsProper (routes s)
  unfolding routes
  routes-IsProper =
      let last : List Entry = opsramp_routes s ++ deploy_routes s in
      let later : List Entry = package_routes s ++ last in
      All-append IsProper (basic_routes s) (group_routes s ++ later) basic_routes-IsProper (
        All-append IsProper (group_routes s) later group_routes-IsProper (
          All-append IsProper (package_routes s) last package_routes-IsProper (
            All-append IsProper (opsramp_routes s) (deploy_routes s) opsramp_routes-IsProper
              deploy_routes-IsProper)))
