-- ===== src/Deploy/Run/Counts.antt =====
-- The counts of a job and the semaphore, over every interleaving of the workers.
use opsramp_agent_orchestrat.Prelude.{
  ℕ, suc, ◌+◌, ◌≤◌, ◌≡◌, refl, ap, subst, true, false, not, ◌&&◌, Option, none, some, List, [], ◌∷◌,
  ◌++◌, length, length-append, ltb, ltb→lt, Text, is_empty, arith,
}
use opsramp_agent_orchestrat.Store.World.{World}
use opsramp_agent_orchestrat.Deploy.Hosts.{HostOutcome}
use opsramp_agent_orchestrat.Deploy.Run.{
  Phase, spawned, recorded, counted, State, Job, Move, spawn, work, tally, leave, finish, nth,
  spawn_next, work_at, tally_at, leave_at, finish_all, step, begin,
}
use opsramp_agent_orchestrat.Deploy.Run.Reach.{
  Reachable, start, move, is_open, opens, opens-append, opens-replace, opens-without,
  length-replace, length-without, if_some, some_inj,
}

-- Every host is pending, open or counted; the semaphore is not exceeded; at the end none is left.
pub record IsSound (j : Job) (total : ℕ) (s : State) : Type 0 where
  pub bounded : length s.active ≤ j.concurrency
  pub all_hosts : s.succeeded + s.failed + (opens s.active + length s.pending) ≡ total
  pub closed : s.finished ≡ true → length s.active + length s.pending ≡ 0

spawn_next-IsSound :
    (j : Job) (total : ℕ) (hosts : List Text) (s t : State)
    → s.pending ≡ hosts
    → IsSound j total s
    → spawn_next j hosts s ≡ some t
    → IsSound j total t
unfolding spawn_next opens is_open
spawn_next-IsSound j total [] s t p g e = ground (arith, e)
spawn_next-IsSound j total (h ∷ hs) s t p g e =
    let u : State = record s { pending = hs; active = s.active ++ (h, spawned) ∷ [] } in
    let (room, same) = if_some (ltb (length s.active) j.concurrency) u t e in
    let rest : length s.pending ≡ suc (length hs) = ap length p in
    let more : length u.active ≡ suc (length s.active) =
      omega (arith, length-append s.active ((h, spawned) ∷ [])) in
    subst (IsSound j total) same (record {
      bounded = omega (arith, more, ltb→lt (length s.active) j.concurrency room);
      all_hosts = omega (arith, g.all_hosts, rest, opens-append s.active ((h, spawned) ∷ []));
      closed = λ f. omega (arith, g.closed f, rest);
    })

work_at-IsSound :
    (j : Job) (total i : ℕ) (o : HostOutcome) (x : Option (Text × Phase)) (s t : State)
    → nth s.active i ≡ x
    → IsSound j total s
    → work_at j i o x s ≡ some t
    → IsSound j total t
unfolding work_at is_open
work_at-IsSound j total i o (some (h, spawned)) s t p g e =
    let slots = length-replace s.active i (h, recorded o.ok) in
    subst (IsSound j total) (some_inj _ t e) (record {
      bounded = omega (arith, g.bounded, slots);
      all_hosts = omega (arith, g.all_hosts, opens-replace s.active i h spawned (recorded o.ok) p);
      closed = λ f. omega (arith, g.closed f, slots);
    })
work_at-IsSound j total i o (some (h, recorded b)) s t p g e = ground (arith, e)
work_at-IsSound j total i o (some (h, counted n m)) s t p g e = ground (arith, e)
work_at-IsSound j total i o none s t p g e = ground (arith, e)

tally_at-IsSound :
    (j : Job) (total i : ℕ) (x : Option (Text × Phase)) (s t : State)
    → nth s.active i ≡ x
    → IsSound j total s
    → tally_at i x s ≡ some t
    → IsSound j total t
unfolding tally_at is_open
tally_at-IsSound j total i (some (h, recorded true)) s t p g e =
    let slots = length-replace s.active i (h, counted (s.succeeded + 1) s.failed) in
    subst (IsSound j total) (some_inj _ t e) (record {
      bounded = omega (arith, g.bounded, slots);
      all_hosts = omega (
        arith,
        g.all_hosts,
        opens-replace s.active i h (recorded true) (counted (s.succeeded + 1) s.failed) p,
      );
      closed = λ f. omega (arith, g.closed f, slots);
    })
tally_at-IsSound j total i (some (h, recorded false)) s t p g e =
    let slots = length-replace s.active i (h, counted s.succeeded (s.failed + 1)) in
    subst (IsSound j total) (some_inj _ t e) (record {
      bounded = omega (arith, g.bounded, slots);
      all_hosts = omega (
        arith,
        g.all_hosts,
        opens-replace s.active i h (recorded false) (counted s.succeeded (s.failed + 1)) p,
      );
      closed = λ f. omega (arith, g.closed f, slots);
    })
tally_at-IsSound j total i (some (h, spawned)) s t p g e = ground (arith, e)
tally_at-IsSound j total i (some (h, counted n m)) s t p g e = ground (arith, e)
tally_at-IsSound j total i none s t p g e = ground (arith, e)

leave_at-IsSound :
    (j : Job) (total i : ℕ) (x : Option (Text × Phase)) (s t : State)
    → nth s.active i ≡ x
    → IsSound j total s
    → leave_at j i x s ≡ some t
    → IsSound j total t
unfolding leave_at is_open
leave_at-IsSound j total i (some (h, counted n m)) s t p g e =
    let slots = length-without s.active i (h, counted n m) p in
    subst (IsSound j total) (some_inj _ t e) (record {
      bounded = omega (arith, g.bounded, slots);
      all_hosts = omega (arith, g.all_hosts, opens-without s.active i h (counted n m) p);
      closed = λ f. omega (arith, g.closed f, slots);
    })
leave_at-IsSound j total i (some (h, spawned)) s t p g e = ground (arith, e)
leave_at-IsSound j total i (some (h, recorded b)) s t p g e = ground (arith, e)
leave_at-IsSound j total i none s t p g e = ground (arith, e)

is_empty-length : {A : Type 0} (xs : List A) → is_empty xs ≡ true → length xs ≡ 0
is_empty-length [] e = refl
is_empty-length (x ∷ xs) e = ground (arith, e)

finish_all-IsSound :
    (j : Job) (total : ℕ) (s t : State)
    → IsSound j total s
    → finish_all j s ≡ some t
    → IsSound j total t
unfolding finish_all
finish_all-IsSound j total s t g e =
    let (ready, same) =
      if_some (is_empty s.pending && (is_empty s.active && not s.finished)) _ t e in
    let none_pending : is_empty s.pending ≡ true = ground (arith, ready) in
    let none_active : is_empty s.active ≡ true = ground (arith, ready) in
    subst (IsSound j total) same (record {
      bounded = g.bounded;
      all_hosts = g.all_hosts;
      closed = λ f.
          omega
            (arith, is_empty-length s.pending none_pending, is_empty-length s.active none_active);
    })

step-IsSound :
    (j : Job) (total : ℕ) (m : Move) (s t : State)
    → IsSound j total s
    → step j m s ≡ some t
    → IsSound j total t
unfolding step
step-IsSound j total spawn s t g e = spawn_next-IsSound j total s.pending s t refl g e
step-IsSound j total (work i o) s t g e = work_at-IsSound j total i o (nth s.active i) s t refl g e
step-IsSound j total (tally i) s t g e = tally_at-IsSound j total i (nth s.active i) s t refl g e
step-IsSound j total (leave i) s t g e = leave_at-IsSound j total i (nth s.active i) s t refl g e
step-IsSound j total finish s t g e = finish_all-IsSound j total s t g e

begin-IsSound : (j : Job) (hosts : List Text) (w : World) → IsSound j (length hosts) (begin hosts w)
unfolding begin opens
begin-IsSound j hosts w = record {
  bounded = omega arith;
  all_hosts = omega arith;
  closed = λ f. ground (arith, f);
}

pub Reachable-IsSound :
    (j : Job) (hosts : List Text) (w : World) (s : State)
    → Reachable j hosts w s
    → IsSound j (length hosts) s
Reachable-IsSound j hosts w _ start = begin-IsSound j hosts w
Reachable-IsSound j hosts w t (move {s = s} m r e) =
    step-IsSound j (length hosts) m s t (Reachable-IsSound j hosts w s r) e

-- However the workers of a job interleave, no more of them work at a time than the semaphore allows,
-- and the two counts never exceed the number of hosts.
pub run-bounded :
    (j : Job) (hosts : List Text) (w : World) (s : State)
    → Reachable j hosts w s
    → (length s.active ≤ j.concurrency) × (s.succeeded + s.failed ≤ length hosts)
run-bounded j hosts w s r =
    let g = Reachable-IsSound j hosts w s r in (g.bounded, omega (arith, g.all_hosts))

opens-none : (xs : List (Text × Phase)) → length xs ≡ 0 → opens xs ≡ 0
unfolding opens
opens-none [] e = refl
opens-none (x ∷ xs) e = omega (arith, e)

-- However the workers of a job interleave, at the end each host is counted once, as a success or as a
-- failure.
pub run-counts_all :
    (j : Job) (hosts : List Text) (w : World) (s : State)
    → Reachable j hosts w s
    → s.finished ≡ true
    → s.succeeded + s.failed ≡ length hosts
run-counts_all j hosts w s r f =
    let g = Reachable-IsSound j hosts w s r in
    let left : length s.active + length s.pending ≡ 0 = g.closed f in
    omega (arith, g.all_hosts, left, opens-none s.active (omega (arith, left)))
