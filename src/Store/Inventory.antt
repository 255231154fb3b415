-- ===== src/Store/Inventory.antt =====
-- internal/store/postgres.go: the OpsRamp agent inventory and the connector's settings.
use opsramp_agent_orchestrat.Prelude.{
  ℕ, Bool, Option, some, List, [], map, length, ◌==◌, if◌then◌else◌, Text, text_eq, ok,
}
use opsramp_agent_orchestrat.Prelude.Sorting.{sort_by}
use opsramp_agent_orchestrat.Model.{OpsRampAgent, OpsRampSettings}
use opsramp_agent_orchestrat.Store.World.{Action, write, read, upsert}

unfoldable pub has_resource_id : Text → OpsRampAgent → Bool
has_resource_id id a = text_eq a.resource_id id

-- A row that is there keeps the time at which it was first seen.
unfoldable pub upsert_opsramp_agent : OpsRampAgent → Action (Unit {0})
unfolding write has_resource_id
upsert_opsramp_agent a = write λ now db. record db {
  inventory =
      upsert (has_resource_id a.resource_id)
        (λ old. record a { first_seen = old.first_seen; last_synced = now })
        (record a { first_seen = now; last_synced = now }) db.inventory;
}

-- The columns that are selected: `raw` is not among them, and stays nil.
unfoldable pub listed_columns : OpsRampAgent → OpsRampAgent
listed_columns a = record a { raw = [] }

unfoldable pub list_opsramp_agents : Action (List OpsRampAgent)
unfolding read listed_columns
list_opsramp_agents =
    read (λ db. ok (map listed_columns (sort_by (λ (a : OpsRampAgent). a.name) db.inventory)))

unfoldable pub count_opsramp_agents : Action ℕ
unfolding read
count_opsramp_agents = read (λ db. ok (length db.inventory))

-- `none` where the settings were never saved.
unfoldable pub get_opsramp_settings : Action (Option OpsRampSettings)
unfolding read
get_opsramp_settings = read (λ db. ok db.settings)

unfoldable pub save_opsramp_settings : OpsRampSettings → Action (Unit {0})
unfolding write
save_opsramp_settings s = write λ now db. record db {
  settings = some (record s {
    poll_interval_seconds = if s.poll_interval_seconds == 0 then 60 else s.poll_interval_seconds;
    updated_at = now;
  });
}
