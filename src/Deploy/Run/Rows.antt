-- ===== src/Deploy/Run/Rows.antt =====
-- The row of a job under the writes of its workers.
use opsramp_agent_orchestrat.Prelude.{
  ℕ, ◌≡◌, ◌<◌, refl, Bool, some, if◌then◌else◌, Text, codes, Result, ok, err, arith, Bool-cases,
  inl, inr,
}
use opsramp_agent_orchestrat.Model.{DeployJob, DeployHostResult}
use opsramp_agent_orchestrat.Store.World.{Error, World, find, exists, tick}
use opsramp_agent_orchestrat.Store.Rows.{find-update_where, find-holds}
use opsramp_agent_orchestrat.Store.Steps.{IsReliable}
use opsramp_agent_orchestrat.Store.Jobs.{
  has_job_id, is_result, upsert_deploy_host_result, set_deploy_job_status,
}
use opsramp_agent_orchestrat.Deploy.Hosts.{HostOutcome}
use opsramp_agent_orchestrat.Deploy.Run.{
  Job, final_status, record_outcome, stored, result_of, fallback,
}

-- The database answers, the clock stands, and the job has a row.
pub record HasRow (id : Text) (now : ℕ) (w : World) : Type 0 where
  pub row : DeployJob
  pub found : find (has_job_id id) w.db.jobs ≡ some row
  pub answers : IsReliable w
  pub clock : w.now ≡ now

-- The status of a job at its end: nothing succeeded, all did, or some did.
abbrev pub Grades : ℕ → ℕ → Text → Type 0
Grades succeeded failed status =
    (succeeded ≡ 0 → status ≡ codes "failed")
    × (0 < succeeded → failed ≡ 0 → status ≡ codes "succeeded")
    × (0 < succeeded → 0 < failed → status ≡ codes "partial")

pub final_status-Grades :
    (succeeded failed : ℕ) → Grades succeeded failed (final_status succeeded failed)
unfolding final_status
final_status-Grades succeeded failed =
    (λ h. ground (arith, h), λ h k. ground (arith, h, k), λ h k. ground (arith, h, k))

-- The row with the counts and the status of an end.
pub record IsClosed (id : Text) (now : ℕ) (succeeded failed : ℕ) (w : World) : Type 0 where
  pub row : DeployJob
  pub found : find (has_job_id id) w.db.jobs ≡ some row
  pub status : Grades succeeded failed row.status
  pub successes : row.succeeded ≡ succeeded
  pub failures : row.failed ≡ failed
  pub ended : row.finished_at ≡ some now

pub upsert-HasRow :
    (id : Text) (now : ℕ) (r : DeployHostResult) (w : World)
    → HasRow id now w
    → HasRow id now (upsert_deploy_host_result r w).1
unfolding upsert_deploy_host_result tick
upsert-HasRow id now r w h = elim (Bool-cases (exists (is_result r.job_id r.host) w.db.job_hosts)) [
  | inl e ↦
      rw (h.answers, e) (record { row = h.row; found = h.found; answers = refl; clock = h.clock })
  | inr e ↦ elim (Bool-cases (exists (has_job_id r.job_id) w.db.jobs)) [
    | inl f ↦
        rw (h.answers, e, f)
          (record { row = h.row; found = h.found; answers = refl; clock = h.clock })
    | inr f ↦
        rw (h.answers, e, f)
          (record { row = h.row; found = h.found; answers = refl; clock = h.clock })
  ]
]

stored-HasRow :
    (j : Job) (now : ℕ) (r : DeployHostResult) (p : Result Error (Unit {0}) × World)
    → HasRow j.id now p.1
    → HasRow j.id now (stored j r p)
unfolding stored
stored-HasRow j now r (ok u, w) h = h
stored-HasRow j now r (err e, w) h = upsert-HasRow j.id now (fallback j r e) w h

pub record_outcome-HasRow :
    (j : Job) (now : ℕ) (host : Text) (o : HostOutcome) (w : World)
    → HasRow j.id now w
    → HasRow j.id now (record_outcome j host o w)
unfolding record_outcome
record_outcome-HasRow j now host o w h =
    stored-HasRow j now (result_of j host o) (upsert_deploy_host_result (result_of j host o) w)
      (upsert-HasRow j.id now (result_of j host o) w h)

-- The row behind a change of the job's status.
abbrev pub changed : DeployJob → Text → ℕ → ℕ → Bool → ℕ → DeployJob
changed row status succeeded failed finished now = record row {
  status = status;
  succeeded = succeeded;
  failed = failed;
  finished_at = if finished then some now else row.finished_at;
}

same_id :
    (id : Text) (row : DeployJob) (status : Text) (succeeded failed : ℕ) (finished : Bool) (now : ℕ)
    → has_job_id id (changed row status succeeded failed finished now) ≡ has_job_id id row
unfolding has_job_id
same_id id row status succeeded failed finished now = refl

pub set_deploy_job_status-found :
    (id status : Text) (succeeded failed : ℕ) (finished : Bool) (now : ℕ) (w : World)
    (h : HasRow id now w)
    → find (has_job_id id) (set_deploy_job_status id status succeeded failed finished w).1.db.jobs
      ≡ some (changed h.row status succeeded failed finished w.now)
unfolding set_deploy_job_status tick
set_deploy_job_status-found id status succeeded failed finished now w h =
    rw
      (
        h.answers,
        find-update_where (has_job_id id) (has_job_id id)
            (λ row. changed row status succeeded failed finished w.now) w.db.jobs
            (λ row. same_id id row status succeeded failed finished w.now),
        h.found,
        find-holds (has_job_id id) w.db.jobs h.row h.found,
      )
      refl

pub set_deploy_job_status-HasRow :
    (id status : Text) (succeeded failed : ℕ) (finished : Bool) (now : ℕ) (w : World)
    → HasRow id now w
    → HasRow id now (set_deploy_job_status id status succeeded failed finished w).1
unfolding set_deploy_job_status tick
set_deploy_job_status-HasRow id status succeeded failed finished now w h = record {
  row = changed h.row status succeeded failed finished w.now;
  found = set_deploy_job_status-found id status succeeded failed finished now w h;
  answers = rw (h.answers) refl;
  clock = rw (h.answers) (h.clock);
}
