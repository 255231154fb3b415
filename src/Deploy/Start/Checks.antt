-- ===== src/Deploy/Start/Checks.antt =====
-- What holds of a job that `StartJob` accepts, and what a refused one leaves.
use opsramp_agent_orchestrat.Prelude.{
  ◌≡◌, refl, ap, sym, ◌∙◌, true, false, ◌&&◌, Option-cases, none, List, Text, is_empty, trim_space,
  Result, Result-cases, ok, err, arith, Bool-cases, inl, inr,
}
use opsramp_agent_orchestrat.Store.World.{Error, World}
use opsramp_agent_orchestrat.Store.Jobs.{create_deploy_job, create_deploy_job-err}
use opsramp_agent_orchestrat.Deploy.Address.{Syntax}
use opsramp_agent_orchestrat.Deploy.Targets.{TargetError, expand_targets}
use opsramp_agent_orchestrat.Deploy.Start.{
  StartRequest, OpsRampSource, StartError, PerHost, Started, is_install_action, is_action,
  action_of, per_host, renewed, after_token, with_hosts, checked, validate, new_job, created,
  record_job, start_job,
}

-- The request's credentials name a user and hold a key or a password.
abbrev pub CanLogIn : StartRequest → Type 0
CanLogIn req =
    (is_empty req.creds.user ≡ false)
    × ((is_empty req.creds.password && is_empty (trim_space req.creds.private_key)) ≡ false)

checked-ok :
    (src : OpsRampSource) (req : StartRequest) (targets : Result TargetError (List Text))
    (hosts : List Text) (p : PerHost)
    → checked src req targets ≡ ok (hosts, p)
    → (targets ≡ ok hosts) × CanLogIn req × (renewed src ≡ none) × (per_host src req ≡ ok p)
unfolding checked with_hosts after_token
checked-ok src req (err x) hosts p e = ground (arith, e)
checked-ok src req (ok found) hosts p e = elim (Bool-cases (is_empty req.creds.user)) [
  | inl u ↦ ground (arith, u, e)
  | inr u ↦
      elim (Bool-cases
        (is_empty req.creds.password && is_empty (trim_space req.creds.private_key))) [
          | inl c ↦ ground (arith, u, c, e)
          | inr c ↦ elim (Option-cases (renewed src)) [
            | inr (x, n) ↦ ground (arith, u, c, n, e)
            | inl n ↦ elim (Result-cases (per_host src req)) [
              | inr (x, q) ↦ ground (arith, u, c, n, q, e)
              | inl (d, q) ↦
                  (ground (arith, u, c, n, q, e), (u, c), n, ground (arith, u, c, n, q, e))
            ]
          ]
        ]
]

created-err :
    (s : Started) (p : Result Error (Unit {0}) × World) (x : StartError)
    → (created s p).0 ≡ err x
    → (y : Error) × (p.0 ≡ err y) × ((created s p).1 ≡ p.1)
unfolding created
created-err s (ok u, w) x e = ground (arith, e)
created-err s (err y, w) x e = (y, refl, refl)

record_job-err :
    (id : Text) (req : StartRequest) (v : Result StartError (List Text × PerHost)) (w : World)
    (x : StartError)
    → (record_job id req v w).0 ≡ err x
    → (record_job id req v w).1.db ≡ w.db
unfolding record_job
record_job-err id req (err y) w x e = refl
record_job-err id req (ok (hosts, p)) w x e =
    let (y, failed, same) =
      created-err (new_job id req hosts, hosts, p)
        (create_deploy_job (new_job id req hosts) hosts w) x e in
    ap (λ (v : World). v.db) same ∙ create_deploy_job-err (new_job id req hosts) hosts w y failed

-- A job that is not started, for whatever reason, leaves the database as it was.
pub start_job-err :
    (syn : Syntax) (src : OpsRampSource) (id : Text) (req : StartRequest) (w : World)
    (x : StartError)
    → (start_job syn src id req w).0 ≡ err x
    → (start_job syn src id req w).1.db ≡ w.db
unfolding start_job
start_job-err syn src id req w x e = record_job-err id req (validate syn src req) w x e

created-ok : (s t : Started) (p : Result Error (Unit {0}) × World) → (created s p).0 ≡ ok t → s ≡ t
unfolding created
created-ok s t (ok u, w) e = ground (arith, e)
created-ok s t (err y, w) e = ground (arith, e)

record_job-ok :
    (id : Text) (req : StartRequest) (v : Result StartError (List Text × PerHost)) (w : World)
    (s : Started)
    → (record_job id req v w).0 ≡ ok s
    → (v ≡ ok (s.1, s.2)) × (s.0 ≡ new_job id req s.1)
unfolding record_job
record_job-ok id req (err y) w s e = ground (arith, e)
record_job-ok id req (ok (hosts, p)) w s e =
    let same =
      created-ok (new_job id req hosts, hosts, p) s
        (create_deploy_job (new_job id req hosts) hosts w) e in
    (
      ap (λ (t : Started). ok (t.1, t.2)) same,
      sym (ap (λ (t : Started). t.0) same) ∙ ap (λ (t : Started). new_job id req t.1) same,
    )

validate-ok :
    (syn : Syntax) (src : OpsRampSource) (req : StartRequest) (hosts : List Text) (p : PerHost)
    → validate syn src req ≡ ok (hosts, p)
    → (is_action (action_of req) ≡ true)
      × (checked src req (expand_targets syn req.target_spec) ≡ ok (hosts, p))
unfolding validate
validate-ok syn src req hosts p e = elim (Bool-cases (is_action (action_of req))) [
  | inl a ↦ (a, ground (arith, a, e))
  | inr a ↦ ground (arith, a, e)
]

per_host-ok :
    (src : OpsRampSource) (req : StartRequest) (p : PerHost)
    → per_host src req ≡ ok p
    → is_install_action (action_of req) ≡ true
    → src.install_params.enabled ≡ true
unfolding per_host
per_host-ok src req p e i = elim (Bool-cases src.install_params.enabled) [
  | inl a ↦ a
  | inr a ↦ ground (arith, a, i, e)
]

-- What is started is a known action on the hosts of the spec, with credentials, behind a renewed token
-- where the connector is enabled; and an action that installs has the connector enabled.
pub start_job-ok :
    (syn : Syntax) (src : OpsRampSource) (id : Text) (req : StartRequest) (w : World) (s : Started)
    → (start_job syn src id req w).0 ≡ ok s
    → (is_action (action_of req) ≡ true)
      × (expand_targets syn req.target_spec ≡ ok s.1)
      × (s.0 ≡ new_job id req s.1)
      × CanLogIn req
      × (renewed src ≡ none)
      × (is_install_action (action_of req) ≡ true → src.install_params.enabled ≡ true)
unfolding start_job
start_job-ok syn src id req w s e =
    let (valid, job) = record_job-ok id req (validate syn src req) w s e in
    let (known, passed) = validate-ok syn src req s.1 s.2 valid in
    let (targets, login, token, does) =
      checked-ok src req (expand_targets syn req.target_spec) s.1 s.2 passed in
    (known, targets, job, login, token, per_host-ok src req s.2 does)
