-- ===== src/Deploy/Whole.antt =====
-- internal/deploy/manager.go: a job from `StartJob` to the end of `run`.
use opsramp_agent_orchestrat.Prelude.{◌+◌, ◌≡◌, sym, ap, ◌∙◌, true, Text, ok, In, subst}
use opsramp_agent_orchestrat.Store.World.{World}
use opsramp_agent_orchestrat.Store.Steps.{IsReliable}
use opsramp_agent_orchestrat.Deploy.Address.{Syntax}
use opsramp_agent_orchestrat.Deploy.Targets.{expand_targets}
use opsramp_agent_orchestrat.Deploy.Start.{StartRequest, OpsRampSource, Started, new_job, start_job}
use opsramp_agent_orchestrat.Deploy.Start.Checks.{start_job-ok}
use opsramp_agent_orchestrat.Deploy.Start.Created.{start_job-IsCreated}
use opsramp_agent_orchestrat.Deploy.Run.{Job, State}
use opsramp_agent_orchestrat.Deploy.Run.Counts.{run-counts_all}
use opsramp_agent_orchestrat.Deploy.Run.Reach.{Reachable}
use opsramp_agent_orchestrat.Deploy.Run.Rows.{IsClosed}
use opsramp_agent_orchestrat.Deploy.Run.Final.{run-final_row}
use opsramp_agent_orchestrat.Deploy.Run.Verdicts.{HasVerdict}
use opsramp_agent_orchestrat.Deploy.Run.Settled.{run-HasVerdict}

-- A job that is started, while the database answers, and whose workers have come to their end, however
-- they interleave: its row has the final status and the two counts, which add up to the total that it was
-- recorded with, and each host of the target spec has a row that says success or failed.
pub start_job-run :
    (syn : Syntax) (src : OpsRampSource) (req : StartRequest) (w : World) (s : Started) (j : Job)
    (t : State)
    → IsReliable w
    → (start_job syn src j.id req w).0 ≡ ok s
    → Reachable j s.1 (start_job syn src j.id req w).1 t
    → t.finished ≡ true
    → IsClosed j.id w.now t.succeeded t.failed t.world
      × (t.succeeded + t.failed ≡ s.0.total)
      × (expand_targets syn req.target_spec ≡ ok s.1)
      × ((host : Text) → In host s.1 → HasVerdict j.id host t.world)
unfolding new_job
start_job-run syn src req w s j t r started p done =
    let v : World = (start_job syn src j.id req w).1 in
    let made = start_job-IsCreated syn src j.id req w s r started in
    let (known, targets, job, login, token, installs) = start_job-ok syn src j.id req w s started in
    (
      subst (λ now. IsClosed j.id now t.succeeded t.failed t.world) made.clock
          (run-final_row j s.1 v made.row t made.answers made.found p done),
      run-counts_all j s.1 v t p done ∙ sym (ap (λ k. k.total) job),
      targets,
      λ host m. run-HasVerdict j s.1 v made.row t host made.answers made.found p done m,
    )
