-- ===== src/Deploy/Run/Ends.antt =====
-- internal/deploy/manager.go: the moves that are left to the workers of a job.
use opsramp_agent_orchestrat.Prelude.{
  ℕ, zero, suc, ◌+◌, ◌*◌, ◌≤◌, ◌<◌, ◌≡◌, ◌≢◌, refl, ap, subst, Bool, true, false, not, ◌&&◌, Option,
  none, some, List, [], ◌∷◌, ◌++◌, length, ltb, lt→ltb, Text, is_empty, arith, Option-cases, inl,
  inr,
}
use opsramp_agent_orchestrat.Store.World.{World}
use opsramp_agent_orchestrat.Deploy.Hosts.{HostOutcome}
use opsramp_agent_orchestrat.Deploy.Run.{
  Phase, spawned, recorded, counted, State, Job, Move, spawn, work, tally, leave, finish, nth,
  replace, without, spawn_next, work_at, tally_at, leave_at, finish_all, step, begin,
}
use opsramp_agent_orchestrat.Deploy.Run.Reach.{Reachable, move, if_some, some_inj}

-- The moves that a host's goroutine has before it.
moves_left : Phase → ℕ
moves_left spawned = 3
moves_left (recorded b) = 2
moves_left (counted n m) = 1

active_moves : List (Text × Phase) → ℕ
unfolding moves_left
active_moves [] = 0
active_moves ((h, p) ∷ act) = moves_left p + active_moves act

last_move : Bool → ℕ
last_move true = 0
last_move false = 1

-- The moves that are left until the job is finished.
pub to_go : State → ℕ
unfolding active_moves last_move
to_go s = 4 * length s.pending + active_moves s.active + last_move s.finished

active_moves-append :
    (xs ys : List (Text × Phase)) → active_moves (xs ++ ys) ≡ active_moves xs + active_moves ys
unfolding active_moves
active_moves-append [] ys = omega arith
active_moves-append ((h, p) ∷ xs) ys = omega (arith, active_moves-append xs ys)

active_moves-replace :
    (xs : List (Text × Phase)) (i : ℕ) (h : Text) (p q : Phase)
    → nth xs i ≡ some (h, p)
    → active_moves (replace xs i (h, q)) + moves_left p ≡ active_moves xs + moves_left q
unfolding active_moves nth replace
active_moves-replace [] i h p q e = ground (arith, e)
active_moves-replace ((g, r) ∷ xs) zero h p q e =
    let same : r ≡ p = ground (arith, e) in rw same (omega arith)
active_moves-replace ((g, r) ∷ xs) (suc i) h p q e =
    omega (arith, active_moves-replace xs i h p q e)

active_moves-without :
    (xs : List (Text × Phase)) (i : ℕ) (h : Text) (p : Phase)
    → nth xs i ≡ some (h, p)
    → active_moves (without xs i) + moves_left p ≡ active_moves xs
unfolding active_moves nth without
active_moves-without [] i h p e = ground (arith, e)
active_moves-without ((g, r) ∷ xs) zero h p e =
    let same : r ≡ p = ground (arith, e) in rw same (omega arith)
active_moves-without ((g, r) ∷ xs) (suc i) h p e = omega (arith, active_moves-without xs i h p e)

spawn_next-to_go :
    (j : Job) (hosts : List Text) (s t : State)
    → s.pending ≡ hosts
    → spawn_next j hosts s ≡ some t
    → suc (to_go t) ≡ to_go s
unfolding spawn_next to_go active_moves moves_left
spawn_next-to_go j [] s t p e = ground (arith, e)
spawn_next-to_go j (h ∷ hs) s t p e =
    let u : State = record s { pending = hs; active = s.active ++ (h, spawned) ∷ [] } in
    let (room, same) = if_some (ltb (length s.active) j.concurrency) u t e in
    let rest : length s.pending ≡ suc (length hs) = ap length p in
    subst (λ v. suc (to_go v) ≡ to_go s) same
      (omega (arith, rest, active_moves-append s.active ((h, spawned) ∷ [])))

work_at-to_go :
    (j : Job) (i : ℕ) (o : HostOutcome) (x : Option (Text × Phase)) (s t : State)
    → nth s.active i ≡ x
    → work_at j i o x s ≡ some t
    → suc (to_go t) ≡ to_go s
unfolding work_at to_go moves_left
work_at-to_go j i o (some (h, spawned)) s t p e =
    subst (λ v. suc (to_go v) ≡ to_go s) (some_inj _ t e)
      (omega (arith, active_moves-replace s.active i h spawned (recorded o.ok) p))
work_at-to_go j i o (some (h, recorded b)) s t p e = ground (arith, e)
work_at-to_go j i o (some (h, counted n m)) s t p e = ground (arith, e)
work_at-to_go j i o none s t p e = ground (arith, e)

tally_at-to_go :
    (i : ℕ) (x : Option (Text × Phase)) (s t : State)
    → nth s.active i ≡ x
    → tally_at i x s ≡ some t
    → suc (to_go t) ≡ to_go s
unfolding tally_at to_go moves_left
tally_at-to_go i (some (h, recorded true)) s t p e =
    subst (λ v. suc (to_go v) ≡ to_go s) (some_inj _ t e)
      (omega (
        arith,
        active_moves-replace s.active i h (recorded true) (counted (s.succeeded + 1) s.failed) p,
      ))
tally_at-to_go i (some (h, recorded false)) s t p e =
    subst (λ v. suc (to_go v) ≡ to_go s) (some_inj _ t e)
      (omega (
        arith,
        active_moves-replace s.active i h (recorded false) (counted s.succeeded (s.failed + 1)) p,
      ))
tally_at-to_go i (some (h, spawned)) s t p e = ground (arith, e)
tally_at-to_go i (some (h, counted n m)) s t p e = ground (arith, e)
tally_at-to_go i none s t p e = ground (arith, e)

leave_at-to_go :
    (j : Job) (i : ℕ) (x : Option (Text × Phase)) (s t : State)
    → nth s.active i ≡ x
    → leave_at j i x s ≡ some t
    → suc (to_go t) ≡ to_go s
unfolding leave_at to_go moves_left
leave_at-to_go j i (some (h, counted n m)) s t p e =
    subst (λ v. suc (to_go v) ≡ to_go s) (some_inj _ t e)
      (omega (arith, active_moves-without s.active i h (counted n m) p))
leave_at-to_go j i (some (h, spawned)) s t p e = ground (arith, e)
leave_at-to_go j i (some (h, recorded b)) s t p e = ground (arith, e)
leave_at-to_go j i none s t p e = ground (arith, e)

finish_all-to_go : (j : Job) (s t : State) → finish_all j s ≡ some t → suc (to_go t) ≡ to_go s
unfolding finish_all to_go last_move
finish_all-to_go j s t e =
    let (ready, same) =
      if_some (is_empty s.pending && (is_empty s.active && not s.finished)) _ t e in
    let running : s.finished ≡ false = ground (arith, ready) in
    subst (λ v. suc (to_go v) ≡ to_go s) same (rw running (omega arith))

pub step-to_go : (j : Job) (m : Move) (s t : State) → step j m s ≡ some t → suc (to_go t) ≡ to_go s
unfolding step
step-to_go j spawn s t e = spawn_next-to_go j s.pending s t refl e
step-to_go j (work i o) s t e = work_at-to_go j i o (nth s.active i) s t refl e
step-to_go j (tally i) s t e = tally_at-to_go i (nth s.active i) s t refl e
step-to_go j (leave i) s t e = leave_at-to_go j i (nth s.active i) s t refl e
step-to_go j finish s t e = finish_all-to_go j s t e

then_run : (State → Option State) → Option State → Option State
then_run f none = none
then_run f (some s) = f s

-- Some moves, one after the other.
unfoldable pub run_moves : Job → List Move → State → Option State
unfolding step then_run
run_moves j [] s = some s
run_moves j (m ∷ ms) s = then_run (λ t. run_moves j ms t) (step j m s)

run_moves-to_go :
    (j : Job) (ms : List Move) (s t : State)
    → run_moves j ms s ≡ some t
    → to_go t + length ms ≡ to_go s
unfolding run_moves then_run
run_moves-to_go j [] s t e = subst (λ v. to_go v + 0 ≡ to_go s) (some_inj s t e) (omega arith)
run_moves-to_go j (m ∷ ms) s t e =
    let split : run_moves j (m ∷ ms) s ≡ some t → to_go t + length (m ∷ ms) ≡ to_go s =
      elim (Option-cases (step j m s)) [
        | inl x ↦ rw x λ q. ground (arith, q)
        | inr (u, x) ↦ rw x λ q. omega (arith, run_moves-to_go j ms u t q, step-to_go j m s u x)
      ] in
    split e

pub run_moves-Reachable :
    (j : Job) (hosts : List Text) (w : World) (ms : List Move) (s t : State)
    → Reachable j hosts w s
    → run_moves j ms s ≡ some t
    → Reachable j hosts w t
unfolding run_moves then_run
run_moves-Reachable j hosts w [] s t p e = subst (Reachable j hosts w) (some_inj s t e) p
run_moves-Reachable j hosts w (m ∷ ms) s t p e =
    let split : run_moves j (m ∷ ms) s ≡ some t → Reachable j hosts w t =
      elim (Option-cases (step j m s)) [
        | inl x ↦ rw x λ q. ground (arith, q)
        | inr (u, x) ↦ rw x λ q. run_moves-Reachable j hosts w ms u t (move m p x) q
      ] in
    split e

-- Whatever the order of the moves, a job of n hosts is over after at most 4 n + 1 of them.
pub run-ends :
    (j : Job) (hosts : List Text) (w : World) (ms : List Move) (t : State)
    → run_moves j ms (begin hosts w) ≡ some t
    → length ms ≤ 4 * length hosts + 1
unfolding begin to_go active_moves last_move
run-ends j hosts w ms t e = omega (arith, run_moves-to_go j ms (begin hosts w) t e)

is_some : Option State → Bool
is_some none = false
is_some (some t) = true

is_some-state : (x : Option State) → is_some x ≡ true → (t : State) × (x ≡ some t)
unfolding is_some
is_some-state none e = ground (arith, e)
is_some-state (some t) e = (t, refl)

can_move :
    (j : Job) (o : HostOutcome) (pending : List Text) (active : List (Text × Phase)) (s : State)
    → 0 < j.concurrency
    → s.pending ≡ pending
    → s.active ≡ active
    → s.finished ≡ false
    → (m : Move) × (is_some (step j m s) ≡ true)
unfolding step spawn_next work_at tally_at leave_at finish_all nth is_some
can_move j o pending ((h, spawned) ∷ act) s room p a r = (work 0 o, rw a refl)
can_move j o pending ((h, recorded true) ∷ act) s room p a r = (tally 0, rw a refl)
can_move j o pending ((h, recorded false) ∷ act) s room p a r = (tally 0, rw a refl)
can_move j o pending ((h, counted n m) ∷ act) s room p a r = (leave 0, rw a refl)
can_move j o [] [] s room p a r = (finish, rw (p, a, r) refl)
can_move j o (h ∷ hs) [] s room p a r = (spawn, rw (p, a, lt→ltb 0 j.concurrency room) refl)

-- As long as a job is not finished, some move can be made, whatever the next host's outcome, where the
-- semaphore has a place at all.
pub run-not_stuck :
    (j : Job) (o : HostOutcome) (s : State)
    → 0 < j.concurrency
    → s.finished ≡ false
    → (m : Move) × (t : State) × (step j m s ≡ some t)
run-not_stuck j o s room running =
    let (m, can) = can_move j o s.pending s.active s room refl refl running in
    let (t, made) = is_some-state (step j m s) can in (m, t, made)

active_moves-none : (xs : List (Text × Phase)) → length xs ≡ 0 → active_moves xs ≡ 0
unfolding active_moves
active_moves-none [] e = refl
active_moves-none (x ∷ xs) e = omega (arith, e)

-- Behind the end no move can be made.
pub finished-stays :
    (j : Job) (m : Move) (s t : State)
    → length s.active + length s.pending ≡ 0
    → s.finished ≡ true
    → step j m s ≢ some t
unfolding to_go last_move
finished-stays j m s t left done e =
    let over : to_go s ≡ 0 =
      rw done (omega (arith, left, active_moves-none s.active (omega (arith, left)))) in
    omega (arith, over, step-to_go j m s t e)
