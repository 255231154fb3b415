-- ===== src/Api/Deploy.antt =====
-- internal/api/deploy.go: bulk deployment and the fleet report.
use opsramp_agent_orchestrat.Prelude.{none, some, Result, ok, err, List, Text}
use opsramp_agent_orchestrat.Store.World.{Error, World}
use opsramp_agent_orchestrat.Store.Inventory.{list_opsramp_agents}
use opsramp_agent_orchestrat.Store.Jobs.{list_deploy_jobs, get_deploy_job}
use opsramp_agent_orchestrat.Model.{OpsRampAgent}
use opsramp_agent_orchestrat.Deploy.Start.{OpsRampSource, StartError, Started, start_job}
use opsramp_agent_orchestrat.Opsramp.Calls.{install_source, ensure_token, deploy_script}
use opsramp_agent_orchestrat.Opsramp.Connector.{Connector}
use opsramp_agent_orchestrat.Reconcile.{report}
use opsramp_agent_orchestrat.Api.Http.{
  Request, job_started, jobs_listed, one_job, fleet_report, Site, Handler, write_json, write_err,
  with_world, call, with_body, actor,
}

-- The connector as `StartJob` sees it.
unfoldable pub source_of : Site → Connector → OpsRampSource
unfolding install_source ensure_token deploy_script
source_of s c = record {
  install_params = record {
    api_host = (install_source c).api_host;
    key = (install_source c).key;
    secret = (install_source c).secret;
    enabled = (install_source c).enabled;
  };
  ensure_token = elim (ensure_token s.remote c) [
    | none ↦ none
    | some e ↦ some (s.call_error_text e)
  ];
  deploy_script = elim (deploy_script s.remote c) [
    | ok script ↦ ok script
    | err e ↦ err (s.call_error_text e)
  ];
}

unfoldable pub started : Site → Result StartError Started × World → Handler
started s (ok (job, hosts, per), w) st = write_json 202 (job_started job) (with_world st w)
started s (err e, w) st = write_err 400 (s.start_error_text e) (with_world st w)

unfoldable pub handle_deploy_start : Site → Request → Handler
unfolding started source_of start_job actor
handle_deploy_start s r = with_body (s.bodies.start_fields r.body) λ fields st.
    started s
      (start_job s.syntax (source_of s st.connector) (s.new_id st.world.now)
        (record fields { created_by = actor r }) st.world)
      st

unfoldable pub evaluated : Site → Result Error (List OpsRampAgent) × World → Handler
unfolding report
evaluated s (err e, w) st = write_err 503 (s.error_text e) (with_world st w)
evaluated s (ok agents, w) st =
    write_json 200 (fleet_report (report w.now s.ranged agents)) (with_world st w)

unfoldable pub handle_reconcile : Site → Handler
unfolding evaluated list_opsramp_agents
handle_reconcile s st = evaluated s (list_opsramp_agents st.world) st

unfoldable pub handle_deploy_list : Site → Handler
unfolding list_deploy_jobs
handle_deploy_list s = call s (list_deploy_jobs 50) (λ jobs. write_json 200 (jobs_listed jobs))

unfoldable pub handle_deploy_get : Site → Text → Handler
unfolding get_deploy_job
handle_deploy_get s id = call s (get_deploy_job id) (λ job. write_json 200 (one_job job))
