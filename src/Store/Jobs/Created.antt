-- ===== src/Store/Jobs/Created.antt =====
-- A job that is recorded, with the rows of its hosts.
use opsramp_agent_orchestrat.Prelude.{
  ◌≡◌, ℕ, refl, sym, ◌∙◌, true, false, none, some, List, [], ◌∷◌, ◌++◌, Text, text_eq_refl, ok, err,
  arith, Bool-cases, Option-cases, inl, inr, is_empty, codes, if◌then◌else◌,
}
use opsramp_agent_orchestrat.Model.{DeployJob}
use opsramp_agent_orchestrat.Store.World.{
  Error, constraint, World, Action, ◌>>=◌, find, exists, transaction,
}
use opsramp_agent_orchestrat.Store.Rows.{exists_lem, find-append}
use opsramp_agent_orchestrat.Store.Steps.{
  IsReliable, write-IsReliable, statement-IsReliable, bind-ok, transaction-ok,
}
use opsramp_agent_orchestrat.Store.Jobs.{
  has_job_id, is_result, insert_host, insert_hosts, insert_job, create_deploy_job,
}

-- The rows of the hosts go in beside the jobs.
record IsBeside (w v : World) : Type 0 where
  answers : IsReliable v
  clock : v.now ≡ w.now
  jobs : v.db.jobs ≡ w.db.jobs

insert_host-IsBeside :
    (job host : Text) (w : World)
    → IsReliable w
    → (v : World) × (insert_host job host w ≡ (ok tt, v)) × IsBeside w v
unfolding insert_host
insert_host-IsBeside job host w r = (
  _,
  write-IsReliable _ w r,
  record {
    answers = r;
    clock = refl;
    jobs = elim (Bool-cases (exists (is_result job host) w.db.job_hosts)) [
      | inl e ↦ rw e refl
      | inr e ↦ rw e refl
    ];
  },
)

insert_hosts-IsBeside :
    (job : Text) (hosts : List Text) (w : World)
    → IsReliable w
    → (v : World) × (insert_hosts job hosts w ≡ (ok tt, v)) × IsBeside w v
unfolding insert_hosts
insert_hosts-IsBeside job [] w r = (w, refl, record { answers = r; clock = refl; jobs = refl })
insert_hosts-IsBeside job (h ∷ hs) w r =
    let (u, first, beside) = insert_host-IsBeside job h w r in
    let (v, more, behind) = insert_hosts-IsBeside job hs u (beside.answers) in
    (
      v,
      bind-ok (insert_host job h) (λ _. insert_hosts job hs) w u tt first ∙ more,
      record {
        answers = behind.answers;
        clock = behind.clock ∙ beside.clock;
        jobs = behind.jobs ∙ beside.jobs;
      },
    )

-- The database answers as before, and has a row of the job.
pub record IsCreated (id : Text) (w v : World) : Type 0 where
  pub answers : IsReliable v
  pub clock : v.now ≡ w.now
  pub row : DeployJob
  pub found : find (has_job_id id) v.db.jobs ≡ some row

-- The row of a new job.
abbrev fresh : DeployJob → ℕ → DeployJob
fresh job now = record job {
  action = if is_empty job.action then codes "install" else job.action;
  succeeded = 0;
  failed = 0;
  created_at = now;
  finished_at = none;
  hosts = [];
}

find-fresh :
    (job : DeployJob) (now : ℕ) (rows : List DeployJob)
    → exists (has_job_id job.id) rows ≡ false
    → find (has_job_id job.id) (rows ++ fresh job now ∷ []) ≡ some (fresh job now)
unfolding find has_job_id
find-fresh job now rows new =
    let gone = sym (exists_lem (has_job_id job.id) rows) ∙ new in
    find-append (has_job_id job.id) rows (fresh job now ∷ [])
    ∙ elim (Option-cases (find (has_job_id job.id) rows)) [
      | inl q ↦ rw (q, text_eq_refl job.id) refl
      | inr (x, q) ↦ ground (arith, q, gone)
    ]

insert_job-new :
    (job : DeployJob) (w : World)
    → IsReliable w
    → exists (has_job_id job.id) w.db.jobs ≡ false
    → (v : World) × (insert_job job w ≡ (ok tt, v)) × IsCreated job.id w v
unfolding insert_job
insert_job-new job w r new = (
  record w { db = record w.db { jobs = w.db.jobs ++ fresh job w.now ∷ [] } },
  statement-IsReliable _ w r ∙ rw new refl,
  record {
    answers = r;
    clock = refl;
    row = fresh job w.now;
    found = find-fresh job w.now w.db.jobs new;
  },
)

insert_job-known :
    (job : DeployJob) (w : World)
    → IsReliable w
    → exists (has_job_id job.id) w.db.jobs ≡ true
    → insert_job job w ≡ (err constraint, w)
unfolding insert_job
insert_job-known job w r known = statement-IsReliable _ w r ∙ rw known refl

-- A transaction whose first statement fails, fails.
refused-err :
    (m : Action (Unit {0})) (f : Unit {0} → Action (Unit {0})) (w : World) (e : Error)
    → IsReliable w
    → m w ≡ (err e, w)
    → (transaction (m >>= f) w).0 ≡ err e
unfolding transaction
refused-err m f w e r h = rw (write-IsReliable (λ _ db. db) w r, h) refl

-- A job that is created, while the database answers, has its row.
pub create_deploy_job-IsCreated :
    (job : DeployJob) (hosts : List Text) (w : World)
    → IsReliable w
    → (create_deploy_job job hosts w).0 ≡ ok tt
    → IsCreated job.id w (create_deploy_job job hosts w).1
unfolding create_deploy_job
create_deploy_job-IsCreated job hosts w r done =
    elim (Bool-cases (exists (has_job_id job.id) w.db.jobs)) [
      | inl known ↦ ground (
        arith,
        done,
        refused-err (insert_job job) (λ _. insert_hosts job.id hosts) w constraint r
            (insert_job-known job w r known),
      )
      | inr new ↦
          let (u, first, made) = insert_job-new job w r new in
          let (v, more, beside) = insert_hosts-IsBeside job.id hosts u made.answers in
          rw
            (transaction-ok (insert_job job >>= λ _. insert_hosts job.id hosts) w v tt r
              (beside.answers) (bind-ok (insert_job job) _ w u tt first ∙ more))
            (record {
              answers = beside.answers;
              clock = beside.clock ∙ made.clock;
              row = made.row;
              found = rw (beside.jobs) (made.found);
            })
    ]
