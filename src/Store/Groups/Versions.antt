-- ===== src/Store/Groups/Versions.antt =====
-- Creating a config version and going back to an old one, against reading the current one.
use opsramp_agent_orchestrat.Prelude.{
  ℕ, ◌+◌, ◌<◌, ltb→lt, lt→ltb, text_eq_iff, Option-cases, ◌≡◌, refl, ap, ◌∙◌, true, false, none,
  some, List, [], ◌∷◌, ◌++◌, ==_iff, Text, ok, err, arith, inl, inr,
}
use opsramp_agent_orchestrat.Prelude.Dicts.{Dict}
use opsramp_agent_orchestrat.Model.{Group, ConfigFile, ConfigVersion}
use opsramp_agent_orchestrat.Store.World.{
  Error, not_found, Db, World, find, exists, update_where, require, tick,
}
use opsramp_agent_orchestrat.Store.Rows.{find-update_where, find-append, find-holds, exists_lem}
use opsramp_agent_orchestrat.Store.Steps.{
  IsReliable, read-IsReliable, transaction-ok, transaction-err,
}
use opsramp_agent_orchestrat.Store.Agents.{has_group_name}
use opsramp_agent_orchestrat.Store.Groups.{
  is_version_of, max_version, insert_version, set_current, version_body, create_config_version,
  is_version, set_current_config_version, current_row, current_config, get_current_config,
}

-- The row that creating a version adds.
abbrev pub new_version : Text → Dict ConfigFile → Text → Text → Text → World → ConfigVersion
new_version group files hash note created_by w = record {
  id = w.db.next_version_id;
  group_name = group;
  version = max_version group w.db.versions + 1;
  files = files;
  hash = hash;
  note = note;
  created_by = created_by;
  created_at = w.now;
}

unfoldable pub pointed : Text → ℕ → ℕ → List Group → List Group
pointed group version now groups =
    update_where (has_group_name group)
      (λ g. record g { current_version = version; updated_at = now }) groups

-- The database behind it.
unfoldable pub with_version : Text → ConfigVersion → World → World
unfolding pointed
with_version group row w = record w {
  db = record w.db {
    versions = w.db.versions ++ row ∷ [];
    next_version_id = w.db.next_version_id + 1;
    groups = pointed group row.version w.now w.db.groups;
  };
}

version_body-IsReliable :
    (group : Text) (files : Dict ConfigFile) (hash note created_by : Text) (w : World)
    → IsReliable w
    → exists (has_group_name group) w.db.groups ≡ true
    → version_body group files hash note created_by w ≡ (
      ok (new_version group files hash note created_by w),
      with_version group (new_version group files hash note created_by w) w,
    )
unfolding version_body insert_version set_current with_version tick
version_body-IsReliable group files hash note created_by w r there = rw (r, there) refl

-- No version of the group has a number above the highest.
find-max_version :
    (group : Text) (n : ℕ) (versions : List ConfigVersion)
    → max_version group versions < n
    → find (is_version group n) versions ≡ none
unfolding find is_version max_version is_version_of
find-max_version group n [] h = refl
find-max_version group n (cv ∷ cvs) h = ground (
  arith,
  find-max_version group n cvs,
  ltb→lt (max_version group cvs) cv.version,
  lt→ltb (max_version group cvs) cv.version,
  ==_iff cv.version n,
)

find-pointed :
    (group : Text) (version now : ℕ) (groups : List Group)
    → exists (has_group_name group) groups ≡ true
    → (g : Group) × (find (has_group_name group) (pointed group version now groups)
        ≡ some (record g { current_version = version; updated_at = now }))
unfolding pointed has_group_name
find-pointed group version now groups there =
    elim (Option-cases (find (has_group_name group) groups)) [
      | inl e ↦ ground (arith, e, there, exists_lem (has_group_name group) groups)
      | inr (g, e) ↦ (
        g,
        rw
            (
              find-update_where (has_group_name group) (has_group_name group)
                  (λ h. record h { current_version = version; updated_at = now }) groups
                  (λ h. refl),
              e,
              find-holds (has_group_name group) groups g e,
            )
            refl,
      )
    ]

pub current_config-with_version :
    (group : Text) (row : ConfigVersion) (w : World)
    → exists (has_group_name group) w.db.groups ≡ true
    → row.group_name ≡ group
    → row.version ≡ max_version group w.db.versions + 1
    → current_config group (with_version group row w).db ≡ ok row
unfolding current_config current_row with_version is_version require find
current_config-with_version group row w there named numbered =
    let (g, found) = find-pointed group row.version w.now w.db.groups there in
    let fresh : find (is_version group row.version) w.db.versions ≡ none =
      find-max_version group row.version w.db.versions (omega (arith, numbered)) in
    let mine : is_version group row.version row ≡ true =
      ground (arith, text_eq_iff row.group_name group, named, ==_iff row.version row.version) in
    rw (found, find-append (is_version group row.version) w.db.versions (row ∷ []), fresh, mine)
      refl

-- What creating a version does, while the database answers.
pub create_config_version-IsReliable :
    (group : Text) (files : Dict ConfigFile) (hash note created_by : Text) (w : World)
    → IsReliable w
    → exists (has_group_name group) w.db.groups ≡ true
    → create_config_version group files hash note created_by w ≡ (
      ok (new_version group files hash note created_by w),
      with_version group (new_version group files hash note created_by w) w,
    )
unfolding create_config_version with_version
create_config_version-IsReliable group files hash note created_by w r there =
    let row : ConfigVersion = new_version group files hash note created_by w in
    transaction-ok (version_body group files hash note created_by) w (with_version group row w) row
      r r (version_body-IsReliable group files hash note created_by w r there)

-- Creating a version of a group that is there, while the database answers, gives the next number, and
-- then the version is the group's current config.
pub create_config_version-current :
    (group : Text) (files : Dict ConfigFile) (hash note created_by : Text) (w : World)
    → IsReliable w
    → exists (has_group_name group) w.db.groups ≡ true
    → ((create_config_version group files hash note created_by w).0
        ≡ ok (new_version group files hash note created_by w))
      × ((get_current_config group (create_config_version group files hash note created_by w).1).0
          ≡ ok (new_version group files hash note created_by w))
unfolding get_current_config with_version
create_config_version-current group files hash note created_by w r there =
    let row : ConfigVersion = new_version group files hash note created_by w in
    let v : World = with_version group row w in
    let done : create_config_version group files hash note created_by w ≡ (ok row, v) =
      create_config_version-IsReliable group files hash note created_by w r there in
    let current : current_config group v.db ≡ ok row =
      current_config-with_version group row w there refl refl in
    (
      ap (λ p. p.0) done,
      ap (λ p. (get_current_config group p.1).0) done
          ∙ ap (λ p. p.0) (read-IsReliable (current_config group) v r)
          ∙ current,
    )

-- A failed creation, at whatever statement, leaves the database as it was: there is no version without
-- its group pointing at it.
pub create_config_version-err :
    (group : Text) (files : Dict ConfigFile) (hash note created_by : Text) (w : World) (e : Error)
    → (create_config_version group files hash note created_by w).0 ≡ err e
    → (create_config_version group files hash note created_by w).1.db ≡ w.db
unfolding create_config_version
create_config_version-err group files hash note created_by w e h =
    transaction-err (version_body group files hash note created_by) w e h

set_current_config_version-db :
    (group : Text) (version : ℕ) (w : World)
    → IsReliable w
    → exists (is_version group version) w.db.versions ≡ true
    → set_current_config_version group version w
      ≡ (ok tt, record w { db = record w.db { groups = pointed group version w.now w.db.groups } })
unfolding set_current_config_version set_current pointed tick
set_current_config_version-db group version w r there = rw (r, there) refl

current_config-pointed :
    (group : Text) (version now : ℕ) (db : Db)
    → exists (has_group_name group) db.groups ≡ true
    → current_config group (record db { groups = pointed group version now db.groups })
      ≡ require (find (is_version group version) db.versions)
unfolding current_config current_row
current_config-pointed group version now db there =
    let (g, found) = find-pointed group version now db.groups there in rw found refl

-- Going back to a stored version of a group that is there, while the database answers, makes that
-- version the current config, with the files that it was created with.
pub set_current_config_version-current :
    (group : Text) (cv : ConfigVersion) (w : World)
    → IsReliable w
    → exists (has_group_name group) w.db.groups ≡ true
    → find (is_version group cv.version) w.db.versions ≡ some cv
    → (get_current_config group (set_current_config_version group cv.version w).1).0 ≡ ok cv
unfolding get_current_config require
set_current_config_version-current group cv w r there stored =
    let v : World = record w {
      db = record w.db { groups = pointed group cv.version w.now w.db.groups };
    } in
    let has : exists (is_version group cv.version) w.db.versions ≡ true =
      exists_lem (is_version group cv.version) w.db.versions ∙ rw stored refl in
    ap (λ p. (get_current_config group p.1).0)
      (set_current_config_version-db group cv.version w r has)
    ∙ ap (λ p. p.0) (read-IsReliable (current_config group) v r)
    ∙ current_config-pointed group cv.version w.now w.db there
    ∙ ap require stored

-- Going back to a version that is not stored is an error and changes nothing.
pub set_current_config_version-missing :
    (group : Text) (version : ℕ) (w : World)
    → IsReliable w
    → exists (is_version group version) w.db.versions ≡ false
    → set_current_config_version group version w ≡ (err not_found, w)
unfolding set_current_config_version tick
set_current_config_version-missing group version w r missing = rw (r, missing) refl
