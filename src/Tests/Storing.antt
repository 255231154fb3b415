-- ===== src/Tests/Storing.antt =====
-- The store's theorems on the sample database.
use opsramp_agent_orchestrat.Prelude.{◌≡◌, refl, text_eq, ok}
use opsramp_agent_orchestrat.Store.World.{find, exists}
use opsramp_agent_orchestrat.Store.Agents.{has_group_name}
use opsramp_agent_orchestrat.Store.Groups.{
  get_current_config, set_current_config_version, delete_group, is_version,
}
use opsramp_agent_orchestrat.Store.Groups.Versions.{set_current_config_version-current}
use opsramp_agent_orchestrat.Store.Groups.References.{IsForgotten, delete_group-IsForgotten}
use opsramp_agent_orchestrat.Tests.Samples.{web, first_version, world}

set_current_config_version-current_example :
    (get_current_config web (set_current_config_version web 1 world).1).0 ≡ ok first_version
unfolding exists find has_group_name is_version text_eq
set_current_config_version-current_example =
    set_current_config_version-current web first_version world refl refl refl

delete_group-IsForgotten_example :
    ((delete_group web world).0 ≡ ok tt) × IsForgotten web (delete_group web world).1.db
unfolding exists has_group_name text_eq
delete_group-IsForgotten_example = delete_group-IsForgotten web world refl refl refl
