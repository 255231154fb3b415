-- ===== src/Store/Sound.antt =====
-- internal/store/postgres.go: which methods only read, and that the others write nothing where they fail.
use opsramp_agent_orchestrat.Prelude.{
  ℕ, ◌≡◌, refl, ◌∙◌, Bool, true, false, not, Option, List, map, length, inl, inr, Text, text_eq,
  Result, ok, err, arith, Bool-cases, if◌then◌else◌,
}
use opsramp_agent_orchestrat.Prelude.Dicts.{Dict}
use opsramp_agent_orchestrat.Prelude.Sorting.{sort_by}
use opsramp_agent_orchestrat.Model.{
  Agent, Group, ConfigFile, ConfigVersion, Package, Event, OpsRampAgent, OpsRampSettings, DeployJob,
  DeployHostResult,
}
use opsramp_agent_orchestrat.Store.World.{
  Error, not_found, Db, World, Action, unless_fault, settle, tick, statement, write, read, continue,
  ◌>>=◌, fail, find, exists, require, drop_where, sort_desc, limit,
}
use opsramp_agent_orchestrat.Store.Steps.{tick-db, read-db}
use opsramp_agent_orchestrat.Store.Agents.{
  has_uid, has_group_name, get_agent, list_agents, set_agent_group, list_events, event_limit,
}
use opsramp_agent_orchestrat.Store.Groups.{
  list_groups, get_group, upsert_group, delete_group, default_group, create_config_version,
  is_version, set_current, set_current_config_version, current_config, get_current_config,
  is_version_of, list_config_versions,
}
use opsramp_agent_orchestrat.Store.Groups.Versions.{create_config_version-err}
use opsramp_agent_orchestrat.Store.Packages.{
  has_package_name, require_package, require_content, get_package, get_package_content,
  list_packages, pkgs_of, upsert_package, delete_package, assign_package, unassign_package,
  group_packages, list_group_packages,
}
use opsramp_agent_orchestrat.Store.Inventory.{
  listed_columns, list_opsramp_agents, count_opsramp_agents, save_opsramp_settings,
}
use opsramp_agent_orchestrat.Store.Jobs.{has_job_id, list_deploy_jobs, get_deploy_job, job_limit}

-- An action that writes nothing, and one that writes nothing where it fails.
abbrev pub Reads : {A : Type 0} → Action A → Type 0
Reads m = (w : World) → (m w).1.db ≡ w.db

abbrev pub IsSound : {A : Type 0} → Action A → Type 0
IsSound m = (w : World) (e : Error) → (m w).0 ≡ err e → (m w).1.db ≡ w.db

pub read-Reads : {A : Type 0} (f : Db → Result Error A) → Reads (read f)
read-Reads f w = read-db f w

pub Reads-IsSound : {A : Type 0} (m : Action A) → Reads m → IsSound m
Reads-IsSound m r w e h = r w

settle-err :
    {A : Type 0} (w : World) (r : Result Error (A × Db)) (e : Error)
    → (settle w r).0 ≡ err e
    → (settle w r).1.db ≡ w.db
settle-err w (ok (a, db)) e h = ground (arith, h)
settle-err w (err f) e h = refl

unless_fault-err :
    {A : Type 0} (f : ℕ → Db → Result Error (A × Db)) (p : Bool × World) (e : Error)
    → (unless_fault f p).0 ≡ err e
    → (unless_fault f p).1.db ≡ p.1.db
unless_fault-err f (true, w) e h = refl
unless_fault-err f (false, w) e h = settle-err w (f w.now w.db) e h

pub statement-IsSound : {A : Type 0} (f : ℕ → Db → Result Error (A × Db)) → IsSound (statement f)
unfolding statement
statement-IsSound f w e h = unless_fault-err f (tick w w.faults) e h ∙ tick-db w w.faults

pub write-IsSound : (f : ℕ → Db → Db) → IsSound (write f)
unfolding write
write-IsSound f = statement-IsSound (λ now db. ok (tt, f now db))

-- Whatever comes behind an action that only reads.
pub bind-Reads :
    {A B : Type 0} (m : Action A) (k : A → Action B)
    → Reads m
    → ((a : A) → Reads (k a))
    → Reads (m >>= k)
bind-Reads {A} {B} m k r s w = go (m w) (r w)
  where
    go : (p : Result Error A × World) → p.1.db ≡ w.db → (continue {B = B} p k).1.db ≡ w.db
    go (ok a, v) h = s a v ∙ h
    go (err e, v) h = h

pub bind-IsSound :
    {A B : Type 0} (m : Action A) (k : A → Action B)
    → Reads m
    → ((a : A) → IsSound (k a))
    → IsSound (m >>= k)
bind-IsSound {A} {B} m k r s w e = go (m w) (r w)
  where
    go :
        (p : Result Error A × World)
        → p.1.db ≡ w.db
        → (continue {B = B} p k).0 ≡ err e
        → (continue {B = B} p k).1.db ≡ w.db
    go (ok a, v) h q = s a v e q ∙ h
    go (err f, v) h q = h

-- The methods that only read.
pub get_agent-Reads : (uid : Text) → Reads (get_agent uid)
unfolding get_agent
get_agent-Reads uid = read-Reads (λ db. require (find (has_uid uid) db.agents))

pub list_agents-Reads : Reads list_agents
unfolding list_agents
list_agents-Reads = read-Reads (λ db. ok (sort_desc (λ (a : Agent). a.last_seen) db.agents))

pub list_events-Reads : (n : ℕ) → Reads (list_events n)
unfolding list_events
list_events-Reads n =
    read-Reads (λ db. ok (limit (event_limit n) (sort_desc (λ (e : Event). e.ts) db.events)))

pub list_groups-Reads : Reads list_groups
unfolding list_groups
list_groups-Reads = read-Reads (λ db. ok (sort_by (λ (g : Group). g.name) db.groups))

pub get_group-Reads : (name : Text) → Reads (get_group name)
unfolding get_group
get_group-Reads name = read-Reads (λ db. require (find (has_group_name name) db.groups))

pub get_current_config-Reads : (name : Text) → Reads (get_current_config name)
unfolding get_current_config
get_current_config-Reads name = read-Reads (current_config name)

pub list_config_versions-Reads : (name : Text) → Reads (list_config_versions name)
unfolding list_config_versions
list_config_versions-Reads name = read-Reads (λ db. ok (
    sort_desc (λ (cv : ConfigVersion). cv.version)
      (drop_where (λ cv. not (is_version_of name cv)) db.versions)))

pub get_package-Reads : (name : Text) → Reads (get_package name)
unfolding get_package
get_package-Reads name =
    read-Reads (λ db. require_package (find (has_package_name name) db.packages))

pub get_package_content-Reads : (name : Text) → Reads (get_package_content name)
unfolding get_package_content
get_package_content-Reads name =
    read-Reads (λ db. require_content (find (has_package_name name) db.packages))

pub list_packages-Reads : Reads list_packages
unfolding list_packages
list_packages-Reads =
    read-Reads (λ db. ok (sort_by (λ (p : Package). p.name) (pkgs_of db.packages)))

pub list_group_packages-Reads : (name : Text) → Reads (list_group_packages name)
unfolding list_group_packages
list_group_packages-Reads name = read-Reads (group_packages name)

pub list_opsramp_agents-Reads : Reads list_opsramp_agents
unfolding list_opsramp_agents
list_opsramp_agents-Reads =
    read-Reads (λ db. ok (map listed_columns (sort_by (λ (a : OpsRampAgent). a.name) db.inventory)))

pub count_opsramp_agents-Reads : Reads count_opsramp_agents
unfolding count_opsramp_agents
count_opsramp_agents-Reads = read-Reads (λ db. ok (length db.inventory))

pub list_deploy_jobs-Reads : (n : ℕ) → Reads (list_deploy_jobs n)
unfolding list_deploy_jobs
list_deploy_jobs-Reads n =
    read-Reads
      (λ db. ok (limit (job_limit n) (sort_desc (λ (j : DeployJob). j.created_at) db.jobs)))

pub get_deploy_job-Reads : (id : Text) → Reads (get_deploy_job id)
unfolding get_deploy_job
get_deploy_job-Reads id =
    bind-Reads (read (λ db. require (find (has_job_id id) db.jobs))) _
      (read-Reads (λ db. require (find (has_job_id id) db.jobs)))
      λ job.
        bind-Reads
          (read (λ db. ok (
            sort_by (λ (r : DeployHostResult). r.host)
              (drop_where (λ r. not (text_eq r.job_id id)) db.job_hosts))))
          _
          (read-Reads (λ db. ok (
            sort_by (λ (r : DeployHostResult). r.host)
              (drop_where (λ r. not (text_eq r.job_id id)) db.job_hosts))))
          (λ hosts w. refl)

-- The methods that write.
pub upsert_group-IsSound :
    (name description : Text) (selector : Dict Text)
    → IsSound (upsert_group name description selector)
unfolding upsert_group
upsert_group-IsSound name description selector = write-IsSound _

pub delete_group-IsSound : (name : Text) → IsSound (delete_group name)
unfolding delete_group
delete_group-IsSound name w e h = elim (Bool-cases (text_eq name default_group)) [
  | inl q ↦ rw q refl
  | inr q ↦ rw q (statement-IsSound _ w e (rw q at h))
]

pub create_config_version-IsSound :
    (group : Text) (files : Dict ConfigFile) (hash note by : Text)
    → IsSound (create_config_version group files hash note by)
create_config_version-IsSound group files hash note by =
    create_config_version-err group files hash note by

moved-IsSound :
    (group : Text) (version : ℕ) (found : Bool)
    → IsSound (if found then set_current group version else fail not_found)
unfolding set_current
moved-IsSound group version true = write-IsSound _
moved-IsSound group version false = λ w e h. refl

pub set_current_config_version-IsSound :
    (group : Text) (version : ℕ) → IsSound (set_current_config_version group version)
unfolding set_current_config_version
set_current_config_version-IsSound group version =
    bind-IsSound (read (λ db. ok (exists (is_version group version) db.versions))) _
      (read-Reads (λ db. ok (exists (is_version group version) db.versions)))
      (moved-IsSound group version)

pub upsert_package-IsSound : (p : Package) (c : List ℕ) → IsSound (upsert_package p c)
unfolding upsert_package
upsert_package-IsSound p c = write-IsSound _

pub delete_package-IsSound : (name : Text) → IsSound (delete_package name)
unfolding delete_package
delete_package-IsSound name = statement-IsSound _

pub assign_package-IsSound : (group pkg : Text) → IsSound (assign_package group pkg)
unfolding assign_package
assign_package-IsSound group pkg = statement-IsSound _

pub unassign_package-IsSound : (group pkg : Text) → IsSound (unassign_package group pkg)
unfolding unassign_package
unassign_package-IsSound group pkg = write-IsSound _

pub set_agent_group-IsSound :
    (uid : Text) (group : Option Text) → IsSound (set_agent_group uid group)
unfolding set_agent_group
set_agent_group-IsSound uid group = statement-IsSound _

pub save_opsramp_settings-IsSound : (s : OpsRampSettings) → IsSound (save_opsramp_settings s)
unfolding save_opsramp_settings
save_opsramp_settings-IsSound s = write-IsSound _
