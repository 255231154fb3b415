-- ===== src/Store/Groups.antt =====
-- internal/store/postgres.go: groups and their versioned configs.
pub mod Versions
pub mod References
use opsramp_agent_orchestrat.Prelude.{
  ℕ, zero, suc, ◌+◌, Bool, true, false, not, ◌&&◌, Option, none, some, List, [], ◌∷◌, ◌++◌, ltb,
  ◌==◌, if◌then◌else◌, Text, codes, text_eq, Result, ok, err,
}
use opsramp_agent_orchestrat.Prelude.Dicts.{Dict}
use opsramp_agent_orchestrat.Prelude.Sorting.{sort_by}
use opsramp_agent_orchestrat.Model.{Agent, Group, ConfigFile, ConfigVersion}
use opsramp_agent_orchestrat.Store.World.{
  Error, not_found, constraint, refused, Db, World, Action, ◌>>=◌, ◌>>◌, pure, fail, statement,
  write, read, transaction, find, exists, drop_where, update_where, upsert, require, sort_desc,
}
use opsramp_agent_orchestrat.Store.Agents.{has_group_name}

abbrev pub default_group : Text
default_group = codes "default"

unfoldable pub list_groups : Action (List Group)
unfolding read
list_groups = read (λ db. ok (sort_by (λ (g : Group). g.name) db.groups))

unfoldable pub get_group : Text → Action Group
unfolding read has_group_name
get_group name = read (λ db. require (find (has_group_name name) db.groups))

-- A group that is there keeps its current version.
unfoldable pub upsert_group : Text → Text → Dict Text → Action (Unit {0})
unfolding write has_group_name
upsert_group name description selector = write λ now db. record db {
  groups =
      upsert (has_group_name name)
        (λ g. record g { description = description; selector = selector; updated_at = now })
        (record {
          name = name;
          description = description;
          selector = selector;
          current_version = 0;
          updated_at = now;
        })
        db.groups;
}

unfoldable pub is_version_of : Text → ConfigVersion → Bool
is_version_of name cv = text_eq cv.group_name name

-- `ON DELETE SET NULL`
unfoldable unassign : Text → Option Text → Option Text
unassign name none = none
unassign name (some g) = if text_eq g name then none else some g

unfoldable pub assigns_to : Text → Text × Text → Bool
assigns_to name (g, p) = text_eq g name

-- The row goes, and with it what refers to it.
unfoldable pub delete_group_rows : Text → Db → Db
unfolding has_group_name is_version_of unassign assigns_to
delete_group_rows name db = record db {
  groups = drop_where (has_group_name name) db.groups;
  versions = drop_where (is_version_of name) db.versions;
  assignments = drop_where (assigns_to name) db.assignments;
  agents =
      update_where (λ _. true)
        (λ (a : Agent). record a { assigned_group = unassign name a.assigned_group }) db.agents;
}

unfoldable pub delete_group : Text → Action (Unit {0})
unfolding statement delete_group_rows
delete_group name w =
    if text_eq name default_group
    then fail (refused (codes "cannot delete the default group")) w
    else statement
        (λ _ db.
          if exists (has_group_name name) db.groups
          then ok (tt, delete_group_rows name db)
          else err not_found)
        w

-- `COALESCE(MAX(version), 0)` over the versions of a group.
unfoldable pub max_version : Text → List ConfigVersion → ℕ
unfolding is_version_of
max_version name [] = 0
max_version name (cv ∷ cvs) =
    let rest = max_version name cvs in
    if is_version_of name cv && ltb rest cv.version then cv.version else rest

-- The row goes in with the next id; a group that is not there violates the reference.
unfoldable insert_version : ConfigVersion → Action ConfigVersion
unfolding statement has_group_name
insert_version cv = statement λ now db.
    let row : ConfigVersion = record cv { id = db.next_version_id; created_at = now } in
    if exists (has_group_name cv.group_name) db.groups
    then ok (
      row,
      record db { versions = db.versions ++ row ∷ []; next_version_id = db.next_version_id + 1 },
    )
    else err constraint

unfoldable pub set_current : Text → ℕ → Action (Unit {0})
unfolding write has_group_name
set_current name version = write λ now db. record db {
  groups =
      update_where (has_group_name name)
        (λ g. record g { current_version = version; updated_at = now }) db.groups;
}

unfoldable version_body : Text → Dict ConfigFile → Text → Text → Text → Action ConfigVersion
unfolding read insert_version set_current max_version
version_body group files hash note created_by = do
  next ← read (λ db. ok (max_version group db.versions + 1))
  cv ← insert_version (record {
    id = 0;
    group_name = group;
    version = next;
    files = files;
    hash = hash;
    note = note;
    created_by = created_by;
    created_at = 0;
  })
  set_current group next
  pure cv

unfoldable pub create_config_version :
    Text → Dict ConfigFile → Text → Text → Text → Action ConfigVersion
unfolding transaction version_body
create_config_version group files hash note created_by =
    transaction (version_body group files hash note created_by)

unfoldable pub is_version : Text → ℕ → ConfigVersion → Bool
is_version name version cv = text_eq cv.group_name name && cv.version == version

unfoldable pub set_current_config_version : Text → ℕ → Action (Unit {0})
unfolding read set_current is_version
set_current_config_version group version = do
  found ← read (λ db. ok (exists (is_version group version) db.versions))
  if found then set_current group version else fail not_found

unfoldable pub current_row : Text → List ConfigVersion → Option Group → Result Error ConfigVersion
unfolding is_version
current_row group versions none = err not_found
current_row group versions (some g) = require (find (is_version group g.current_version) versions)

-- The joined row: the version that the group points at.
unfoldable pub current_config : Text → Db → Result Error ConfigVersion
unfolding has_group_name current_row
current_config group db = current_row group db.versions (find (has_group_name group) db.groups)

unfoldable pub get_current_config : Text → Action ConfigVersion
unfolding read current_config
get_current_config group = read (current_config group)

unfoldable pub list_config_versions : Text → Action (List ConfigVersion)
unfolding read is_version_of
list_config_versions group = read λ db. ok (
    sort_desc (λ (cv : ConfigVersion). cv.version)
      (drop_where (λ cv. not (is_version_of group cv)) db.versions))
