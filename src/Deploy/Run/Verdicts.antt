-- ===== src/Deploy/Run/Verdicts.antt =====
-- The rows of a job's hosts under the writes of its workers.
use opsramp_agent_orchestrat.Prelude.{
  ℕ, ◌≡◌, refl, sym, ◌∙◌, ◌⊎◌, Bool, true, false, some, List, [], ◌∷◌, ◌++◌, if◌then◌else◌, Text,
  codes, text_eq, text_eq_iff, text_eq_refl, ok, arith, Bool-cases, inl, inr, Option-cases,
}
use opsramp_agent_orchestrat.Model.{DeployHostResult}
use opsramp_agent_orchestrat.Store.World.{World, find, exists, tick, update_where}
use opsramp_agent_orchestrat.Store.Rows.{
  exists_lem, find-append, find-update_where_other, find-update_where_row,
}
use opsramp_agent_orchestrat.Store.Steps.{IsReliable}
use opsramp_agent_orchestrat.Store.Jobs.{
  has_job_id, is_result, pg_text, upsert_deploy_host_result, set_deploy_job_status,
}
use opsramp_agent_orchestrat.Deploy.Hosts.{HostOutcome}
use opsramp_agent_orchestrat.Deploy.Run.{Job, record_outcome, stored, host_result, result_of}
use opsramp_agent_orchestrat.Deploy.Run.Rows.{HasRow, upsert-HasRow}

-- The host's row says how its attempt ended.
pub record HasVerdict (id host : Text) (w : World) : Type 0 where
  pub row : DeployHostResult
  pub found : find (is_result id host) w.db.job_hosts ≡ some row
  pub verdict : (row.status ≡ codes "success") ⊎ (row.status ≡ codes "failed")

-- The result as it is stored.
abbrev kept : DeployHostResult → ℕ → DeployHostResult
kept r now = record r { output = pg_text r.output; error = pg_text r.error; updated_at = now }

module _ (r : DeployHostResult) (now : ℕ) (w : World) (h : HasRow r.job_id now w) where
  job_there : exists (has_job_id r.job_id) w.db.jobs ≡ true
  job_there = exists_lem (has_job_id r.job_id) w.db.jobs ∙ rw (h.found) refl

  abbrev rows_behind : List DeployHostResult
  rows_behind =
      if exists (is_result r.job_id r.host) w.db.job_hosts
      then update_where (is_result r.job_id r.host) (λ _. kept r w.now) w.db.job_hosts
      else w.db.job_hosts ++ kept r w.now ∷ []

  upsert-HasRow_eq :
      upsert_deploy_host_result r w
      ≡ (ok tt, record w { db = record w.db { job_hosts = rows_behind } })
  unfolding upsert_deploy_host_result tick
  upsert-HasRow_eq = elim (Bool-cases (exists (is_result r.job_id r.host) w.db.job_hosts)) [
    | inl e ↦ rw (h.answers, e) refl
    | inr e ↦ rw (h.answers, e, job_there) refl
  ]

  is_result-kept : is_result r.job_id r.host (kept r w.now) ≡ true
  unfolding is_result
  is_result-kept = rw (text_eq_refl r.job_id, text_eq_refl r.host) refl

  find-rows_behind : find (is_result r.job_id r.host) rows_behind ≡ some (kept r w.now)
  unfolding find
  find-rows_behind = elim (Bool-cases (exists (is_result r.job_id r.host) w.db.job_hosts)) [
    | inl e ↦ rw e (
        find-update_where_row (is_result r.job_id r.host) (kept r w.now) w.db.job_hosts
          is_result-kept e)
    | inr e ↦
        let gone = sym (exists_lem (is_result r.job_id r.host) w.db.job_hosts) ∙ e in
        rw e (
          find-append (is_result r.job_id r.host) w.db.job_hosts (kept r w.now ∷ [])
          ∙ elim (Option-cases (find (is_result r.job_id r.host) w.db.job_hosts)) [
            | inl q ↦ rw (q, is_result-kept) refl
            | inr (x, q) ↦ ground (arith, q, gone)
          ])
  ]

  another :
      (g : Text)
      → text_eq r.host g ≡ false
      → (x : DeployHostResult) → is_result r.job_id r.host x ≡ true
      → is_result r.job_id g x ≡ false
  unfolding is_result
  another g differs x e = elim (Bool-cases (text_eq x.host r.host)) [
    | inr no_host ↦ ground (arith, no_host, e)
    | inl one ↦
        let same : x.host ≡ r.host = (text_eq_iff x.host r.host).0 one in
        ground (arith, e, same, differs)
  ]

  -- The row of another host stays as it is.
  find-rows_behind_other :
      (g : Text)
      → text_eq r.host g ≡ false
      → find (is_result r.job_id g) rows_behind ≡ find (is_result r.job_id g) w.db.job_hosts
  unfolding find is_result
  find-rows_behind_other g differs =
      let not_kept : is_result r.job_id g (kept r w.now) ≡ false = ground (arith, differs) in
      elim (Bool-cases (exists (is_result r.job_id r.host) w.db.job_hosts)) [
        | inl e ↦ rw e (
            find-update_where_other (is_result r.job_id g) (kept r w.now)
              (is_result r.job_id r.host) w.db.job_hosts not_kept (another g differs))
        | inr e ↦ rw e (
            find-append (is_result r.job_id g) w.db.job_hosts (kept r w.now ∷ [])
            ∙ elim (Option-cases (find (is_result r.job_id g) w.db.job_hosts)) [
              | inl q ↦ rw (q, not_kept) refl
              | inr (x, q) ↦ rw q refl
            ])
      ]

upsert-found :
    (r : DeployHostResult) (now : ℕ) (w : World)
    → HasRow r.job_id now w
    → find (is_result r.job_id r.host) (upsert_deploy_host_result r w).1.db.job_hosts
      ≡ some (kept r w.now)
upsert-found r now w h = rw (upsert-HasRow_eq r now w h) (find-rows_behind r now w h)

upsert-found_other :
    (r : DeployHostResult) (now : ℕ) (w : World) (g : Text)
    → HasRow r.job_id now w
    → text_eq r.host g ≡ false
    → find (is_result r.job_id g) (upsert_deploy_host_result r w).1.db.job_hosts
      ≡ find (is_result r.job_id g) w.db.job_hosts
upsert-found_other r now w g h differs =
    rw (upsert-HasRow_eq r now w h) (find-rows_behind_other r now w h g differs)

-- The world behind the work on a host.
abbrev pub worked : Job → Text → HostOutcome → World → World
worked j h o w =
    record_outcome j h o (upsert_deploy_host_result (host_result j h (codes "running")) w).1

module _ (j : Job) (host : Text) (o : HostOutcome) (now : ℕ) (w : World)
    (h : HasRow j.id now w) where
  abbrev begun : World
  begun = (upsert_deploy_host_result (host_result j host (codes "running")) w).1

  begun-HasRow : HasRow j.id now begun
  begun-HasRow = upsert-HasRow j.id now (host_result j host (codes "running")) w h

  worked_eq : worked j host o w ≡ (upsert_deploy_host_result (result_of j host o) begun).1
  unfolding record_outcome stored result_of host_result
  worked_eq = rw (upsert-HasRow_eq (result_of j host o) now begun begun-HasRow) refl

  -- The host's row has the verdict of its outcome.
  pub worked-HasVerdict : HasVerdict j.id host (worked j host o w)
  unfolding result_of host_result
  worked-HasVerdict = record {
    row = kept (result_of j host o) begun.now;
    found = rw (worked_eq) (upsert-found (result_of j host o) now begun begun-HasRow);
    verdict = elim (Bool-cases o.ok) [ inl e ↦ inl (rw e refl) | inr e ↦ inr (rw e refl) ];
  }

  -- The rows of the other hosts stay.
  pub worked-HasVerdict_other :
      (g : Text)
      → text_eq host g ≡ false
      → HasVerdict j.id g w
      → HasVerdict j.id g (worked j host o w)
  unfolding result_of host_result
  worked-HasVerdict_other g differs v = record {
    row = v.row;
    found =
        rw
          (
            worked_eq,
            upsert-found_other (result_of j host o) now begun g begun-HasRow differs,
            upsert-found_other (host_result j host (codes "running")) now w g h differs,
          )
          (v.found);
    verdict = v.verdict;
  }

-- A change of the job's row leaves the rows of its hosts.
pub set_deploy_job_status-HasVerdict :
    (id status : Text) (n m : ℕ) (finished : Bool) (g : Text) (w : World)
    → IsReliable w
    → HasVerdict id g w
    → HasVerdict id g (set_deploy_job_status id status n m finished w).1
unfolding set_deploy_job_status tick
set_deploy_job_status-HasVerdict id status n m finished g w r v = record {
  row = v.row;
  found = rw r (v.found);
  verdict = v.verdict;
}
