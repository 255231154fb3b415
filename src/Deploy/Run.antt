-- ===== src/Deploy/Run.antt =====
-- internal/deploy/manager.go: `run`, the workers of a job under a semaphore, as a machine whose moves
-- are the steps of the goroutines. A list of moves is one interleaving.
pub mod Reach
pub mod Counts
pub mod Ends
pub mod Rows
pub mod Final
pub mod Verdicts
pub mod Settled
use opsramp_agent_orchestrat.Prelude.{
  ℕ, zero, suc, ◌+◌, Bool, true, false, not, ◌&&◌, Option, none, some, List, [], ◌∷◌, ◌++◌, length,
  ltb, ◌==◌, if◌then◌else◌, Text, codes, is_empty, Result, ok, err,
}
use opsramp_agent_orchestrat.Model.{DeployHostResult}
use opsramp_agent_orchestrat.Deploy.Hosts.{HostOutcome}
use opsramp_agent_orchestrat.Store.World.{Error, World}
use opsramp_agent_orchestrat.Store.Jobs.{upsert_deploy_host_result, set_deploy_job_status}

-- Where the goroutine of a host stands: before its work, with its outcome on record, with the
-- outcome counted and the two counts it has read.
pub data Phase : Type 0 where
  spawned : Phase
  recorded : Bool → Phase
  counted : ℕ → ℕ → Phase

pub record State : Type 0 where
  pub pending : List Text
  -- the holders of the semaphore
  pub active : List (Text × Phase)
  pub succeeded : ℕ
  pub failed : ℕ
  pub finished : Bool
  pub world : World

-- The job's id, the semaphore's size, and the text of a store error.
pub record Job : Type 0 where
  pub id : Text
  pub concurrency : ℕ
  pub error_text : Error → Text

-- `NewManager`
unfoldable pub concurrency_or : ℕ → ℕ
concurrency_or n = if n == 0 then 10 else n

unfoldable pub host_result : Job → Text → Text → DeployHostResult
host_result j host status = record {
  job_id = j.id;
  host = host;
  status = status;
  exit_code = some 0;
  output = [];
  error = [];
  duration_ms = 0;
  updated_at = 0;
}

unfoldable pub result_of : Job → Text → HostOutcome → DeployHostResult
unfolding host_result
result_of j host o =
    record (host_result j host (if o.ok then codes "success" else codes "failed")) {
      exit_code = o.exit_code;
      output = o.output;
      error = o.err;
      duration_ms = o.duration_ms;
    }

-- The verdict without the captured output, where the full result could not be stored.
unfoldable pub fallback : Job → DeployHostResult → Error → DeployHostResult
fallback j r e = record r {
  output = [];
  error =
      codes "result could not be stored ("
      ++ j.error_text e
      ++ codes "); original error: "
      ++ r.error;
}

stored : Job → DeployHostResult → Result Error (Unit {0}) × World → World
unfolding fallback upsert_deploy_host_result
stored j r (ok u, w) = w
stored j r (err e, w) = (upsert_deploy_host_result (fallback j r e) w).1

unfoldable pub record_outcome : Job → Text → HostOutcome → World → World
unfolding stored result_of upsert_deploy_host_result
record_outcome j host o w =
    stored j (result_of j host o) (upsert_deploy_host_result (result_of j host o) w)

unfoldable pub final_status : ℕ → ℕ → Text
final_status succeeded failed =
    if succeeded == 0
    then codes "failed"
    else if failed == 0
    then codes "succeeded"
    else codes "partial"

pub data Move : Type 0 where
  -- the loop starts the next host's goroutine
  spawn : Move
  -- the goroutine at a place records its start, works, and records the outcome
  work : ℕ → HostOutcome → Move
  -- it counts the outcome under the lock
  tally : ℕ → Move
  -- it reflects the counts that it read on the job, and leaves
  leave : ℕ → Move
  -- all have left
  finish : Move

unfoldable pub nth : {A : Type 0} → List A → ℕ → Option A
nth [] i = none
nth (x ∷ xs) zero = some x
nth (x ∷ xs) (suc i) = nth xs i

unfoldable pub replace : {A : Type 0} → List A → ℕ → A → List A
replace [] i y = []
replace (x ∷ xs) zero y = y ∷ xs
replace (x ∷ xs) (suc i) y = x ∷ replace xs i y

unfoldable pub without : {A : Type 0} → List A → ℕ → List A
without [] i = []
without (x ∷ xs) zero = xs
without (x ∷ xs) (suc i) = x ∷ without xs i

-- The send on the semaphore waits while it is full.
unfoldable pub spawn_next : Job → List Text → State → Option State
spawn_next j [] s = none
spawn_next j (h ∷ hs) s =
    if ltb (length s.active) j.concurrency
    then some (record s { pending = hs; active = s.active ++ (h, spawned) ∷ [] })
    else none

unfoldable pub work_at : Job → ℕ → HostOutcome → Option (Text × Phase) → State → Option State
unfolding replace record_outcome host_result
work_at j i o (some (h, spawned)) s = some (record s {
  active = replace s.active i (h, recorded o.ok);
  world =
      record_outcome j h o
        (upsert_deploy_host_result (host_result j h (codes "running")) s.world).1;
})
work_at j i o other s = none

unfoldable pub tally_at : ℕ → Option (Text × Phase) → State → Option State
unfolding replace
tally_at i (some (h, recorded true)) s = some (record s {
  active = replace s.active i (h, counted (s.succeeded + 1) s.failed);
  succeeded = s.succeeded + 1;
})
tally_at i (some (h, recorded false)) s = some (record s {
  active = replace s.active i (h, counted s.succeeded (s.failed + 1));
  failed = s.failed + 1;
})
tally_at i other s = none

unfoldable pub leave_at : Job → ℕ → Option (Text × Phase) → State → Option State
unfolding without set_deploy_job_status
leave_at j i (some (h, counted n m)) s = some (record s {
  active = without s.active i;
  world = (set_deploy_job_status j.id (codes "running") n m false s.world).1;
})
leave_at j i other s = none

unfoldable pub finish_all : Job → State → Option State
unfolding final_status set_deploy_job_status
finish_all j s =
    if is_empty s.pending && (is_empty s.active && not s.finished)
    then some (record s {
      finished = true;
      world =
          (set_deploy_job_status j.id (final_status s.succeeded s.failed) s.succeeded s.failed true
            s.world).1;
    })
    else none

-- `none` where the move cannot be made.
unfoldable pub step : Job → Move → State → Option State
unfolding nth spawn_next work_at tally_at leave_at finish_all
step j spawn s = spawn_next j s.pending s
step j (work i o) s = work_at j i o (nth s.active i) s
step j (tally i) s = tally_at i (nth s.active i) s
step j (leave i) s = leave_at j i (nth s.active i) s
step j finish s = finish_all j s

unfoldable pub begin : List Text → World → State
begin hosts w = record {
  pending = hosts;
  active = [];
  succeeded = 0;
  failed = 0;
  finished = false;
  world = w;
}
