-- ===== src/Deploy/Run/Final.antt =====
-- The row of a job behind its last move.
use opsramp_agent_orchestrat.Prelude.{
  ℕ, ◌≡◌, refl, ap, subst, true, false, not, ◌&&◌, Option, none, some, List, [], ◌∷◌, length, ltb,
  Text, codes, is_empty, arith, Bool-cases, inl, inr,
}
use opsramp_agent_orchestrat.Model.{DeployJob}
use opsramp_agent_orchestrat.Store.World.{World, find}
use opsramp_agent_orchestrat.Store.Steps.{IsReliable}
use opsramp_agent_orchestrat.Store.Jobs.{has_job_id, upsert_deploy_host_result}
use opsramp_agent_orchestrat.Deploy.Hosts.{HostOutcome}
use opsramp_agent_orchestrat.Deploy.Run.{
  Phase, spawned, recorded, counted, State, Job, Move, spawn, work, tally, leave, finish, nth,
  spawn_next, work_at, tally_at, leave_at, finish_all, step, begin, final_status, host_result,
}
use opsramp_agent_orchestrat.Deploy.Run.Counts.{Reachable-IsSound}
use opsramp_agent_orchestrat.Deploy.Run.Reach.{Reachable, start, move, if_some, some_inj}
use opsramp_agent_orchestrat.Deploy.Run.Ends.{finished-stays}
use opsramp_agent_orchestrat.Deploy.Run.Rows.{
  HasRow, IsClosed, final_status-Grades, changed, set_deploy_job_status-found,
  set_deploy_job_status-HasRow, upsert-HasRow, record_outcome-HasRow,
}

-- What holds of a state of the workers: the job has a row, and at the end the row is that of the end.
record IsRecorded (j : Job) (now : ℕ) (s : State) : Type 0 where
  there : HasRow j.id now s.world
  shut : s.finished ≡ true → IsClosed j.id now s.succeeded s.failed s.world

moving :
    (j : Job) (now : ℕ) (s t : State)
    → HasRow j.id now t.world
    → s.finished ≡ false
    → t.finished ≡ s.finished
    → IsRecorded j now t
moving j now s t h going same = record { there = h; shut = λ f. ground (arith, f, going, same) }

spawn-IsRecorded :
    (j : Job) (now : ℕ) (hosts : List Text) (s t : State)
    → IsRecorded j now s
    → s.finished ≡ false
    → spawn_next j hosts s ≡ some t
    → IsRecorded j now t
unfolding spawn_next
spawn-IsRecorded j now [] s t g going e = ground (arith, e)
spawn-IsRecorded j now (h ∷ hs) s t g going e =
    let (room, same) = if_some (ltb (length s.active) j.concurrency) _ t e in
    subst (IsRecorded j now) same (moving j now s _ g.there going refl)

work-IsRecorded :
    (j : Job) (now i : ℕ) (o : HostOutcome) (x : Option (Text × Phase)) (s t : State)
    → IsRecorded j now s
    → s.finished ≡ false
    → work_at j i o x s ≡ some t
    → IsRecorded j now t
unfolding work_at
work-IsRecorded j now i o (some (h, spawned)) s t g going e =
    let begun = host_result j h (codes "running") in
    subst (IsRecorded j now) (some_inj _ t e) (
      moving j now s _
        (record_outcome-HasRow j now h o (upsert_deploy_host_result begun s.world).1
          (upsert-HasRow j.id now begun s.world g.there))
        going refl)
work-IsRecorded j now i o (some (h, recorded b)) s t g going e = ground (arith, e)
work-IsRecorded j now i o (some (h, counted n m)) s t g going e = ground (arith, e)
work-IsRecorded j now i o none s t g going e = ground (arith, e)

tally-IsRecorded :
    (j : Job) (now i : ℕ) (x : Option (Text × Phase)) (s t : State)
    → IsRecorded j now s
    → s.finished ≡ false
    → tally_at i x s ≡ some t
    → IsRecorded j now t
unfolding tally_at
tally-IsRecorded j now i (some (h, recorded true)) s t g going e =
    subst (IsRecorded j now) (some_inj _ t e) (moving j now s _ g.there going refl)
tally-IsRecorded j now i (some (h, recorded false)) s t g going e =
    subst (IsRecorded j now) (some_inj _ t e) (moving j now s _ g.there going refl)
tally-IsRecorded j now i (some (h, spawned)) s t g going e = ground (arith, e)
tally-IsRecorded j now i (some (h, counted n m)) s t g going e = ground (arith, e)
tally-IsRecorded j now i none s t g going e = ground (arith, e)

leave-IsRecorded :
    (j : Job) (now i : ℕ) (x : Option (Text × Phase)) (s t : State)
    → IsRecorded j now s
    → s.finished ≡ false
    → leave_at j i x s ≡ some t
    → IsRecorded j now t
unfolding leave_at
leave-IsRecorded j now i (some (h, counted n m)) s t g going e =
    subst (IsRecorded j now) (some_inj _ t e) (
      moving j now s _
        (set_deploy_job_status-HasRow j.id (codes "running") n m false now s.world g.there) going
        refl)
leave-IsRecorded j now i (some (h, spawned)) s t g going e = ground (arith, e)
leave-IsRecorded j now i (some (h, recorded b)) s t g going e = ground (arith, e)
leave-IsRecorded j now i none s t g going e = ground (arith, e)

finish-IsRecorded :
    (j : Job) (now : ℕ) (s t : State)
    → IsRecorded j now s
    → finish_all j s ≡ some t
    → IsRecorded j now t
unfolding finish_all
finish-IsRecorded j now s t g e =
    let status : Text = final_status s.succeeded s.failed in
    let (ready, same) =
      if_some (is_empty s.pending && (is_empty s.active && not s.finished)) _ t e in
    subst (IsRecorded j now) same (record {
      there =
          set_deploy_job_status-HasRow j.id status s.succeeded s.failed true now s.world g.there;
      shut = λ f. record {
        row = changed g.there.row status s.succeeded s.failed true s.world.now;
        found =
            set_deploy_job_status-found j.id status s.succeeded s.failed true now s.world g.there;
        status = final_status-Grades s.succeeded s.failed;
        successes = refl;
        failures = refl;
        ended = ap some g.there.clock;
      };
    })

step-IsRecorded :
    (j : Job) (now : ℕ) (m : Move) (s t : State)
    → IsRecorded j now s
    → s.finished ≡ false
    → step j m s ≡ some t
    → IsRecorded j now t
unfolding step
step-IsRecorded j now spawn s t g going e = spawn-IsRecorded j now s.pending s t g going e
step-IsRecorded j now (work i o) s t g going e =
    work-IsRecorded j now i o (nth s.active i) s t g going e
step-IsRecorded j now (tally i) s t g going e =
    tally-IsRecorded j now i (nth s.active i) s t g going e
step-IsRecorded j now (leave i) s t g going e =
    leave-IsRecorded j now i (nth s.active i) s t g going e
step-IsRecorded j now finish s t g going e = finish-IsRecorded j now s t g e

Reachable-IsRecorded :
    (j : Job) (hosts : List Text) (w : World) (row : DeployJob) (s : State)
    → IsReliable w
    → find (has_job_id j.id) w.db.jobs ≡ some row
    → Reachable j hosts w s
    → IsRecorded j w.now s
unfolding begin
Reachable-IsRecorded j hosts w row _ r there start = record {
  there = record { row = row; found = there; answers = r; clock = refl };
  shut = λ f. ground (arith, f);
}
Reachable-IsRecorded j hosts w row t r there (move {s = s} m p e) =
    let g = Reachable-IsRecorded j hosts w row s r there p in
    elim (Bool-cases s.finished) [
      | inr going ↦ step-IsRecorded j w.now m s t g going e
      | inl done ↦
          ground
            (arith, finished-stays j m s t ((Reachable-IsSound j hosts w s p).closed done) done e)
    ]

-- All along the job has its row, and the database answers.
pub Reachable-HasRow :
    (j : Job) (hosts : List Text) (w : World) (row : DeployJob) (s : State)
    → IsReliable w
    → find (has_job_id j.id) w.db.jobs ≡ some row
    → Reachable j hosts w s
    → HasRow j.id w.now s.world
Reachable-HasRow j hosts w row s r there p = (Reachable-IsRecorded j hosts w row s r there p).there

-- However the workers of a job interleave, while the database answers, at the end the job's row has the
-- two final counts and the time of the end, and its status is failed where no host succeeded, else
-- succeeded where none failed, and partial where both happened.
pub run-final_row :
    (j : Job) (hosts : List Text) (w : World) (row : DeployJob) (s : State)
    → IsReliable w
    → find (has_job_id j.id) w.db.jobs ≡ some row
    → Reachable j hosts w s
    → s.finished ≡ true
    → IsClosed j.id w.now s.succeeded s.failed s.world
run-final_row j hosts w row s r there p done =
    (Reachable-IsRecorded j hosts w row s r there p).shut done
