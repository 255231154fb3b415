-- ===== src/Tests/Running.antt =====
-- The workers of a job of one host, at concrete moves.
use opsramp_agent_orchestrat.Prelude.{
  ◌+◌, ◌*◌, ◌≤◌, ◌≡◌, refl, true, false, none, Option, some, List, [], ◌∷◌, length, Text, codes,
  text_eq, ok, In, arith,
}
use opsramp_agent_orchestrat.Deploy.Hosts.{HostOutcome}
use opsramp_agent_orchestrat.Deploy.Run.{
  Job, State, Move, spawn, work, tally, leave, finish, step, begin,
}
use opsramp_agent_orchestrat.Deploy.Run.Counts.{run-bounded}
use opsramp_agent_orchestrat.Deploy.Run.Reach.{Reachable, start, move}
use opsramp_agent_orchestrat.Deploy.Run.Ends.{
  run_moves, run_moves-Reachable, run-ends, run-not_stuck,
}
use opsramp_agent_orchestrat.Deploy.Run.Rows.{IsClosed}
use opsramp_agent_orchestrat.Deploy.Run.Verdicts.{HasVerdict}
use opsramp_agent_orchestrat.Deploy.Targets.{
  fields, expand_tokens, expand_token, has_char, add_all, add, expand_targets,
}
use opsramp_agent_orchestrat.Deploy.Start.{Started, new_job, start_job, probe}
use opsramp_agent_orchestrat.Deploy.Whole.{start_job-run}
use opsramp_agent_orchestrat.Store.World.{exists}
use opsramp_agent_orchestrat.Tests.Samples.{syntax, world, spec, request, source}

abbrev job : Job
job = record { id = codes "j"; concurrency = 1; error_text = λ e. [] }

abbrev outcome : HostOutcome
outcome = record { ok = true; exit_code = some 0; output = []; err = []; duration_ms = 1 }

abbrev hosts : List Text
hosts = codes "a" ∷ []

abbrev or_same : State → Option State → State
or_same s none = s
or_same s (some t) = t

abbrev first : State
first = begin hosts world

abbrev second : State
second = or_same first (step job spawn first)

abbrev third : State
third = or_same second (step job (work 0 outcome) second)

abbrev fourth : State
fourth = or_same third (step job (tally 0) third)

abbrev fifth : State
fifth = or_same fourth (step job (leave 0) fourth)

abbrev last : State
last = or_same fifth (step job finish fifth)

second-Reachable : Reachable job hosts world second
unfolding begin step
second-Reachable = move spawn start refl

last-Reachable : Reachable job hosts world last
unfolding begin step
last-Reachable =
    move finish
      (move (leave 0) (move (tally 0) (move (work 0 outcome) (move spawn start refl) refl) refl)
        refl)
      refl

run-bounded_example : (length second.active ≤ 1) × (second.succeeded + second.failed ≤ length hosts)
run-bounded_example = run-bounded job hosts world second second-Reachable

abbrev moves : List Move
moves = spawn ∷ work 0 outcome ∷ tally 0 ∷ leave 0 ∷ finish ∷ []

run-ends_example : length moves ≤ 4 * length hosts + 1
unfolding begin step run_moves
run-ends_example = run-ends job hosts world moves last refl

run-not_stuck_example : (m : Move) × (t : State) × (step job m first ≡ some t)
unfolding begin
run-not_stuck_example = run-not_stuck job outcome first (ground arith) refl

-- The job of the sample request, at two hosts, from its start to its end.
abbrev begun : State
begun = begin (codes "a" ∷ codes "b" ∷ []) (start_job syntax source (codes "j") request world).1

abbrev both : Job
both = record job { concurrency = 2 }

abbrev refused : HostOutcome
refused = record outcome { ok = false; exit_code = some 1 }

abbrev interleaved : List Move
interleaved =
    spawn
    ∷ spawn
    ∷ work 1 refused
    ∷ work 0 outcome
    ∷ tally 0
    ∷ tally 1
    ∷ leave 1
    ∷ leave 0
    ∷ finish
    ∷ []

abbrev ended : State
ended = or_same begun (run_moves both interleaved begun)

abbrev as_started : Started
as_started =
    (new_job (codes "j") request (codes "a" ∷ codes "b" ∷ []), codes "a" ∷ codes "b" ∷ [], probe [])

start_job-run_example :
    IsClosed (codes "j") 9 ended.succeeded ended.failed ended.world
    × (ended.succeeded + ended.failed ≡ 2)
    × (expand_targets syntax spec ≡ ok (codes "a" ∷ codes "b" ∷ []))
    × ((host : Text)
        → In host (codes "a" ∷ codes "b" ∷ [])
        → HasVerdict (codes "j") host ended.world)
unfolding start_job exists expand_targets expand_tokens fields expand_token has_char add_all add
    text_eq begin step run_moves
start_job-run_example =
    start_job-run syntax source request world as_started both ended refl refl
      (run_moves-Reachable both (codes "a" ∷ codes "b" ∷ [])
        (start_job syntax source (codes "j") request world).1 interleaved begun ended start refl)
      refl
