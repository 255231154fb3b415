-- ===== src/Deploy/Start/Created.antt =====
-- The row of a job that `StartJob` starts.
use opsramp_agent_orchestrat.Prelude.{◌≡◌, refl, List, Text, Result, ok, err, arith}
use opsramp_agent_orchestrat.Store.World.{Error, World}
use opsramp_agent_orchestrat.Store.Steps.{IsReliable}
use opsramp_agent_orchestrat.Store.Jobs.{create_deploy_job}
use opsramp_agent_orchestrat.Store.Jobs.Created.{IsCreated, create_deploy_job-IsCreated}
use opsramp_agent_orchestrat.Deploy.Address.{Syntax}
use opsramp_agent_orchestrat.Deploy.Start.{
  StartRequest, OpsRampSource, StartError, PerHost, Started, validate, new_job, created, record_job,
  start_job,
}

created-done :
    (s t : Started) (p : Result Error (Unit {0}) × World)
    → (created s p).0 ≡ ok t
    → (p.0 ≡ ok tt) × ((created s p).1 ≡ p.1)
unfolding created
created-done s t (ok tt, w) e = (refl, refl)
created-done s t (err y, w) e = ground (arith, e)

record_job-IsCreated :
    (id : Text) (req : StartRequest) (v : Result StartError (List Text × PerHost)) (w : World)
    (s : Started)
    → IsReliable w
    → (record_job id req v w).0 ≡ ok s
    → IsCreated id w (record_job id req v w).1
unfolding record_job new_job
record_job-IsCreated id req (err y) w s r e = ground (arith, e)
record_job-IsCreated id req (ok (hosts, p)) w s r e =
    let job = new_job id req hosts in
    let (done, same) = created-done (job, hosts, p) s (create_deploy_job job hosts w) e in
    rw same (create_deploy_job-IsCreated job hosts w r done)

-- A job that is started, while the database answers, has its row.
pub start_job-IsCreated :
    (syn : Syntax) (src : OpsRampSource) (id : Text) (req : StartRequest) (w : World) (s : Started)
    → IsReliable w
    → (start_job syn src id req w).0 ≡ ok s
    → IsCreated id w (start_job syn src id req w).1
unfolding start_job
start_job-IsCreated syn src id req w s r e =
    record_job-IsCreated id req (validate syn src req) w s r e
