-- ===== src/Store/Jobs.antt =====
-- internal/store/postgres.go: deployment jobs and their per-host results.
pub mod Created
use opsramp_agent_orchestrat.Prelude.{
  ℕ, ◌≡◌, ◌≢◌, All, arith, Bool-cases, inl, inr, to_valid_utf8-All, Bool, not, ◌&&◌, ◌||◌, none,
  some, List, [], ◌∷◌, ◌++◌, ltb, ◌==◌, if◌then◌else◌, Text, codes, text_eq, is_empty, select,
  to_valid_utf8, ok, err,
}
use opsramp_agent_orchestrat.Prelude.Sorting.{sort_by}
use opsramp_agent_orchestrat.Model.{DeployJob, DeployHostResult}
use opsramp_agent_orchestrat.Store.Steps.{transaction-err}
use opsramp_agent_orchestrat.Store.World.{
  Error, constraint, World, Action, ◌>>=◌, ◌>>◌, pure, statement, write, read, transaction, find,
  exists, drop_where, update_where, require, sort_desc, limit,
}

unfoldable pub has_job_id : Text → DeployJob → Bool
has_job_id id j = text_eq j.id id

unfoldable pub is_result : Text → Text → DeployHostResult → Bool
is_result job host r = text_eq r.job_id job && text_eq r.host host

pending_host : Text → Text → DeployHostResult
pending_host job host = record {
  job_id = job;
  host = host;
  status = codes "pending";
  exit_code = some 0;
  output = [];
  error = [];
  duration_ms = 0;
  updated_at = 0;
}

unfoldable insert_host : Text → Text → Action (Unit {0})
unfolding write is_result pending_host
insert_host job host = write λ now db.
    if exists (is_result job host) db.job_hosts then db else record db {
      job_hosts = db.job_hosts ++ (record (pending_host job host) { updated_at = now }) ∷ [];
    }

unfoldable insert_hosts : Text → List Text → Action (Unit {0})
unfolding insert_host
insert_hosts job [] = pure tt
insert_hosts job (h ∷ hs) = insert_host job h >>= λ _. insert_hosts job hs

-- A second job of the same id violates the primary key. The row's counters and times are defaults.
unfoldable insert_job : DeployJob → Action (Unit {0})
unfolding statement has_job_id
insert_job job = statement λ now db.
    if exists (has_job_id job.id) db.jobs
    then err constraint
    else ok (
      tt,
      record db {
        jobs =
            db.jobs
            ++ record job {
              action = if is_empty job.action then codes "install" else job.action;
              succeeded = 0;
              failed = 0;
              created_at = now;
              finished_at = none;
              hosts = [];
            }
              ∷ [];
      },
    )

unfoldable pub create_deploy_job : DeployJob → List Text → Action (Unit {0})
unfolding transaction insert_job insert_hosts
create_deploy_job job hosts = transaction (do insert_job job; insert_hosts job.id hosts)

unfoldable pub set_deploy_job_status : Text → Text → ℕ → ℕ → Bool → Action (Unit {0})
unfolding write has_job_id
set_deploy_job_status id status succeeded failed finished = write λ now db. record db {
  jobs =
      update_where (has_job_id id)
        (λ j. record j {
          status = status;
          succeeded = succeeded;
          failed = failed;
          finished_at = if finished then some now else j.finished_at;
        })
        db.jobs;
}

-- Without the bytes 0, and with each run of bytes that is no UTF-8 replaced.
unfoldable pub pg_text : Text → Text
unfolding select to_valid_utf8
pg_text s = if is_empty s then s else to_valid_utf8 (select (λ c. not (c == 0)) s)

unfoldable pub upsert_deploy_host_result : DeployHostResult → Action (Unit {0})
unfolding statement has_job_id is_result pg_text
upsert_deploy_host_result r = statement λ now db.
    let row : DeployHostResult = record r {
      output = pg_text r.output;
      error = pg_text r.error;
      updated_at = now;
    } in
    if exists (is_result r.job_id r.host) db.job_hosts
    then ok (
      tt,
      record db { job_hosts = update_where (is_result r.job_id r.host) (λ _. row) db.job_hosts },
    )
    else if exists (has_job_id r.job_id) db.jobs
    then ok (tt, record db { job_hosts = db.job_hosts ++ row ∷ [] })
    else err constraint

unfoldable pub job_limit : ℕ → ℕ
job_limit n = if n == 0 || ltb 200 n then 50 else n

unfoldable pub list_deploy_jobs : ℕ → Action (List DeployJob)
unfolding read job_limit
list_deploy_jobs n =
    read (λ db. ok (limit (job_limit n) (sort_desc (λ (j : DeployJob). j.created_at) db.jobs)))

-- The job, then its results by host.
unfoldable pub get_deploy_job : Text → Action DeployJob
unfolding read has_job_id
get_deploy_job id = do
  job ← read (λ db. require (find (has_job_id id) db.jobs))
  hosts ← read (λ db. ok (
      sort_by (λ (r : DeployHostResult). r.host)
        (drop_where (λ r. not (text_eq r.job_id id)) db.job_hosts)))
  pure (record job { hosts = hosts })

-- A job that cannot be recorded, at whatever statement, leaves the database as it was.
pub create_deploy_job-err :
    (job : DeployJob) (hosts : List Text) (w : World) (e : Error)
    → (create_deploy_job job hosts w).0 ≡ err e
    → (create_deploy_job job hosts w).1.db ≡ w.db
unfolding create_deploy_job
create_deploy_job-err job hosts w e h =
    transaction-err (do insert_job job; insert_hosts job.id hosts) w e h

select-All : (s : Text) → All (λ c. c ≢ 0) (select (λ c. not (c == 0)) s)
unfolding select
select-All [] = tt
select-All (c ∷ s) = elim (Bool-cases (c == 0)) [
  | inl e ↦ rw e (select-All s)
  | inr e ↦ rw e (ground (arith, e), select-All s)
]

-- What goes into a text column holds no byte 0, whatever a host has printed.
pub pg_text-All : (s : Text) → All (λ c. c ≢ 0) (pg_text s)
unfolding pg_text
pg_text-All [] = tt
pg_text-All (c ∷ s) = to_valid_utf8-All (select (λ d. not (d == 0)) (c ∷ s)) (select-All (c ∷ s))
