-- ===== src/Deploy/Run/Settled.antt =====
-- The rows of a job's hosts over every interleaving of its workers.
use opsramp_agent_orchestrat.Prelude.{
  ℕ, zero, suc, ◌≡◌, ◌≢◌, refl, ap, sym, subst, ◌⊎◌, ◌+◌, ◌∙◌, Bool, true, false, not, ◌&&◌, Option,
  none, some, List, [], ◌∷◌, length, ltb, Text, codes, is_empty, text_eq, text_eq_iff, In,
  In-append_left, In-append_right, arith, Bool-cases, inl, inr,
}
use opsramp_agent_orchestrat.Model.{DeployJob}
use opsramp_agent_orchestrat.Store.World.{World, find}
use opsramp_agent_orchestrat.Store.Steps.{IsReliable}
use opsramp_agent_orchestrat.Store.Jobs.{has_job_id}
use opsramp_agent_orchestrat.Deploy.Hosts.{HostOutcome}
use opsramp_agent_orchestrat.Deploy.Run.{
  Phase, spawned, recorded, counted, State, Job, Move, spawn, work, tally, leave, finish, nth,
  replace, without, spawn_next, work_at, tally_at, leave_at, finish_all, step, begin, final_status,
}
use opsramp_agent_orchestrat.Deploy.Run.Counts.{Reachable-IsSound}
use opsramp_agent_orchestrat.Deploy.Run.Reach.{Reachable, start, move, if_some, some_inj}
use opsramp_agent_orchestrat.Deploy.Run.Rows.{HasRow}
use opsramp_agent_orchestrat.Deploy.Run.Final.{Reachable-HasRow}
use opsramp_agent_orchestrat.Deploy.Run.Verdicts.{
  HasVerdict, worked, worked-HasVerdict, worked-HasVerdict_other, set_deploy_job_status-HasVerdict,
}

-- A host of the job waits, is before its work, or has its verdict on record.
abbrev IsPlaced : Job → State → Text → Type 0
IsPlaced j s h = In h s.pending ⊎ (In (h, spawned) s.active ⊎ HasVerdict j.id h s.world)

In-replace :
    {A : Type 0} (xs : List A) (i : ℕ) (x y z : A)
    → nth xs i ≡ some z
    → z ≢ x
    → In x xs
    → In x (replace xs i y)
unfolding nth replace
In-replace [] i x y z e differs m = elim m [ ]
In-replace (a ∷ xs) zero x y z e differs (inl here) =
    let same : a ≡ z = ground (arith, e) in absurd (differs (sym same ∙ here))
In-replace (a ∷ xs) zero x y z e differs (inr m) = inr m
In-replace (a ∷ xs) (suc i) x y z e differs (inl here) = inl here
In-replace (a ∷ xs) (suc i) x y z e differs (inr m) = inr (In-replace xs i x y z e differs m)

In-without :
    {A : Type 0} (xs : List A) (i : ℕ) (x z : A)
    → nth xs i ≡ some z
    → z ≢ x
    → In x xs
    → In x (without xs i)
unfolding nth without
In-without [] i x z e differs m = elim m [ ]
In-without (a ∷ xs) zero x z e differs (inl here) =
    let same : a ≡ z = ground (arith, e) in absurd (differs (sym same ∙ here))
In-without (a ∷ xs) zero x z e differs (inr m) = m
In-without (a ∷ xs) (suc i) x z e differs (inl here) = inl here
In-without (a ∷ xs) (suc i) x z e differs (inr m) = inr (In-without xs i x z e differs m)

spawn-IsPlaced :
    (j : Job) (hosts : List Text) (s t : State) (g : Text)
    → s.pending ≡ hosts
    → IsPlaced j s g
    → spawn_next j hosts s ≡ some t
    → IsPlaced j t g
unfolding spawn_next
spawn-IsPlaced j [] s t g at p e = ground (arith, e)
spawn-IsPlaced j (h ∷ hs) s t g at p e =
    let (room, same) = if_some (ltb (length s.active) j.concurrency) _ t e in
    subst (λ v. IsPlaced j v g) same
      (elim p [
        | inl m ↦ elim (subst (In g) at m) [
          | inl here ↦ inr (
              inl (
                In-append_right (g, spawned) s.active ((h, spawned) ∷ [])
                  (inl (λ i. (here i, spawned)))))
          | inr more ↦ inl more
        ]
        | inr (inl m) ↦ inr (inl (In-append_left (g, spawned) s.active ((h, spawned) ∷ []) m))
        | inr (inr v) ↦ inr (inr v)
      ])

work-IsPlaced :
    (j : Job) (now i : ℕ) (o : HostOutcome) (s t : State) (g : Text)
    → HasRow j.id now s.world
    → (x : Option (Text × Phase)) → nth s.active i ≡ x
    → IsPlaced j s g
    → work_at j i o x s ≡ some t
    → IsPlaced j t g
unfolding work_at
work-IsPlaced j now i o s t g row (some (h, spawned)) at p e =
    subst (λ v. IsPlaced j v g) (some_inj _ t e)
      (elim (Bool-cases (text_eq h g)) [
        | inl one ↦
            let same : h ≡ g = (text_eq_iff h g).0 one in
            inr (
              inr (
                subst (λ k. HasVerdict j.id k (worked j h o s.world)) same
                  (worked-HasVerdict j h o now s.world row)))
        | inr other ↦ elim p [
          | inl m ↦ inl m
          | inr (inl m) ↦ inr (
              inl (
                In-replace s.active i (g, spawned) (h, recorded o.ok) (h, spawned) at
                  (λ q. ground (arith, other, (text_eq_iff h g).1 (ap (λ p. p.0) q))) m))
          | inr (inr v) ↦ inr (inr (worked-HasVerdict_other j h o now s.world row g other v))
        ]
      ])
work-IsPlaced j now i o s t g row (some (h, recorded b)) at p e = ground (arith, e)
work-IsPlaced j now i o s t g row (some (h, counted n m)) at p e = ground (arith, e)
work-IsPlaced j now i o s t g row none at p e = ground (arith, e)

-- A phase behind the work is no host that waits for it.
tallied-IsPlaced :
    (j : Job) (i : ℕ) (s : State) (g h : Text) (p q : Phase) (w : World)
    → nth s.active i ≡ some (h, p)
    → p ≢ spawned
    → s.world ≡ w
    → IsPlaced j s g
    → IsPlaced j (record s { active = replace s.active i (h, q); world = w }) g
tallied-IsPlaced j i s g h p q w at past same (inl m) = inl m
tallied-IsPlaced j i s g h p q w at past same (inr (inl m)) =
    inr (inl (In-replace s.active i (g, spawned) (h, q) (h, p) at (λ e. past (ap (λ x. x.1) e)) m))
tallied-IsPlaced j i s g h p q w at past same (inr (inr v)) =
    inr (inr (subst (HasVerdict j.id g) same v))

recorded≢spawned : (b : Bool) → recorded b ≢ spawned
recorded≢spawned b e = ground (arith, e)

tally-IsPlaced :
    (j : Job) (i : ℕ) (s t : State) (g : Text) (x : Option (Text × Phase))
    → nth s.active i ≡ x
    → IsPlaced j s g
    → tally_at i x s ≡ some t
    → IsPlaced j t g
unfolding tally_at
tally-IsPlaced j i s t g (some (h, recorded true)) at p e =
    subst (λ v. IsPlaced j v g) (some_inj _ t e)
      (tallied-IsPlaced j i s g h (recorded true) (counted (s.succeeded + 1) s.failed) s.world at
        (recorded≢spawned true) refl p)
tally-IsPlaced j i s t g (some (h, recorded false)) at p e =
    subst (λ v. IsPlaced j v g) (some_inj _ t e)
      (tallied-IsPlaced j i s g h (recorded false) (counted s.succeeded (s.failed + 1)) s.world at
        (recorded≢spawned false) refl p)
tally-IsPlaced j i s t g (some (h, spawned)) at p e = ground (arith, e)
tally-IsPlaced j i s t g (some (h, counted n m)) at p e = ground (arith, e)
tally-IsPlaced j i s t g none at p e = ground (arith, e)

leave-IsPlaced :
    (j : Job) (i : ℕ) (s t : State) (g : Text) (x : Option (Text × Phase))
    → IsReliable s.world
    → nth s.active i ≡ x
    → IsPlaced j s g
    → leave_at j i x s ≡ some t
    → IsPlaced j t g
unfolding leave_at
leave-IsPlaced j i s t g (some (h, counted n m)) r at p e =
    subst (λ v. IsPlaced j v g) (some_inj _ t e)
      (elim p [
        | inl wait ↦ inl wait
        | inr (inl member) ↦ inr (
            inl (
              In-without s.active i (g, spawned) (h, counted n m) at
                (λ q. ground (arith, ap (λ x. x.1) q)) member))
        | inr (inr v) ↦
            inr (
              inr (set_deploy_job_status-HasVerdict j.id (codes "running") n m false g s.world r v))
      ])
leave-IsPlaced j i s t g (some (h, spawned)) r at p e = ground (arith, e)
leave-IsPlaced j i s t g (some (h, recorded b)) r at p e = ground (arith, e)
leave-IsPlaced j i s t g none r at p e = ground (arith, e)

finish-IsPlaced :
    (j : Job) (s t : State) (g : Text)
    → IsReliable s.world
    → IsPlaced j s g
    → finish_all j s ≡ some t
    → IsPlaced j t g
unfolding finish_all
finish-IsPlaced j s t g r p e =
    let status : Text = final_status s.succeeded s.failed in
    let (ready, same) =
      if_some (is_empty s.pending && (is_empty s.active && not s.finished)) _ t e in
    subst (λ v. IsPlaced j v g) same
      (elim p [
        | inl wait ↦ inl wait
        | inr (inl member) ↦ inr (inl member)
        | inr (inr v) ↦ inr (
            inr (
              set_deploy_job_status-HasVerdict j.id status s.succeeded s.failed true g s.world r v))
      ])

step-IsPlaced :
    (j : Job) (now : ℕ) (m : Move) (s t : State) (g : Text)
    → HasRow j.id now s.world
    → IsPlaced j s g
    → step j m s ≡ some t
    → IsPlaced j t g
unfolding step
step-IsPlaced j now spawn s t g row p e = spawn-IsPlaced j s.pending s t g refl p e
step-IsPlaced j now (work i o) s t g row p e =
    work-IsPlaced j now i o s t g row (nth s.active i) refl p e
step-IsPlaced j now (tally i) s t g row p e = tally-IsPlaced j i s t g (nth s.active i) refl p e
step-IsPlaced j now (leave i) s t g row p e =
    leave-IsPlaced j i s t g (nth s.active i) row.answers refl p e
step-IsPlaced j now finish s t g row p e = finish-IsPlaced j s t g row.answers p e

Reachable-IsPlaced :
    (j : Job) (hosts : List Text) (w : World) (row : DeployJob) (s : State) (g : Text)
    → IsReliable w
    → find (has_job_id j.id) w.db.jobs ≡ some row
    → In g hosts
    → Reachable j hosts w s
    → IsPlaced j s g
unfolding begin
Reachable-IsPlaced j hosts w row _ g r there m start = inl m
Reachable-IsPlaced j hosts w row t g r there m (move {s = s} v p e) =
    step-IsPlaced j w.now v s t g (Reachable-HasRow j hosts w row s r there p)
      (Reachable-IsPlaced j hosts w row s g r there m p) e

none_left : {A : Type 0} (xs : List A) (x : A) → length xs ≡ 0 → ¬ In x xs
none_left [] x e m = elim m [ ]
none_left (y ∷ ys) x e m = ground (arith, e)

-- However the workers of a job interleave, while the database answers, at the end the row of each of
-- its hosts says success or failed: none is left as pending or as running.
pub run-HasVerdict :
    (j : Job) (hosts : List Text) (w : World) (row : DeployJob) (s : State) (host : Text)
    → IsReliable w
    → find (has_job_id j.id) w.db.jobs ≡ some row
    → Reachable j hosts w s
    → s.finished ≡ true
    → In host hosts
    → HasVerdict j.id host s.world
run-HasVerdict j hosts w row s host r there p done m =
    let empty : length s.active + length s.pending ≡ 0 =
      (Reachable-IsSound j hosts w s p).closed done in
    elim (Reachable-IsPlaced j hosts w row s host r there m p) [
      | inl wait ↦ absurd (none_left s.pending host (omega (arith, empty)) wait)
      | inr (inl member) ↦ absurd (none_left s.active (host, spawned) (omega (arith, empty)) member)
      | inr (inr v) ↦ v
    ]
