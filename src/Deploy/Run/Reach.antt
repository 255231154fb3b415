-- ===== src/Deploy/Run/Reach.antt =====
-- The states that the workers of a job reach, and the lists that they change.
use opsramp_agent_orchestrat.Prelude.{
  ℕ, zero, suc, ◌+◌, ◌≡◌, refl, ap, Bool, true, false, none, some, List, [], ◌∷◌, ◌++◌, length,
  if◌then◌else◌, Text, arith,
}
use opsramp_agent_orchestrat.Store.World.{World}
use opsramp_agent_orchestrat.Deploy.Run.{
  Phase, spawned, recorded, counted, State, Job, Move, nth, replace, without, step, begin,
}

-- A state that the workers of a job reach by some moves.
pub data Reachable (j : Job) (hosts : List Text) (w : World) : State → Type 0 where
  start : Reachable j hosts w (begin hosts w)
  move :
      {s t : State} (m : Move) → Reachable j hosts w s → step j m s ≡ some t → Reachable j hosts w t

-- 1 for a host whose outcome is not counted yet.
unfoldable pub is_open : Phase → ℕ
is_open spawned = 1
is_open (recorded b) = 1
is_open (counted n m) = 0

unfoldable pub opens : List (Text × Phase) → ℕ
unfolding is_open
opens [] = 0
opens ((h, p) ∷ act) = is_open p + opens act

pub opens-append : (xs ys : List (Text × Phase)) → opens (xs ++ ys) ≡ opens xs + opens ys
unfolding opens
opens-append [] ys = omega arith
opens-append ((h, p) ∷ xs) ys = omega (arith, opens-append xs ys)

pub opens-replace :
    (xs : List (Text × Phase)) (i : ℕ) (h : Text) (p q : Phase)
    → nth xs i ≡ some (h, p)
    → opens (replace xs i (h, q)) + is_open p ≡ opens xs + is_open q
unfolding opens nth replace
opens-replace [] i h p q e = ground (arith, e)
opens-replace ((g, r) ∷ xs) zero h p q e =
    let same : r ≡ p = ground (arith, e) in rw same (omega arith)
opens-replace ((g, r) ∷ xs) (suc i) h p q e = omega (arith, opens-replace xs i h p q e)

pub opens-without :
    (xs : List (Text × Phase)) (i : ℕ) (h : Text) (p : Phase)
    → nth xs i ≡ some (h, p)
    → opens (without xs i) + is_open p ≡ opens xs
unfolding opens nth without
opens-without [] i h p e = ground (arith, e)
opens-without ((g, r) ∷ xs) zero h p e =
    let same : r ≡ p = ground (arith, e) in rw same (omega arith)
opens-without ((g, r) ∷ xs) (suc i) h p e = omega (arith, opens-without xs i h p e)

pub length-replace :
    {A : Type 0} (xs : List A) (i : ℕ) (y : A) → length (replace xs i y) ≡ length xs
unfolding replace
length-replace [] i y = refl
length-replace (x ∷ xs) zero y = refl
length-replace (x ∷ xs) (suc i) y = ap suc (length-replace xs i y)

pub length-without :
    {A : Type 0} (xs : List A) (i : ℕ) (x : A)
    → nth xs i ≡ some x
    → suc (length (without xs i)) ≡ length xs
unfolding nth without
length-without [] i x e = ground (arith, e)
length-without (y ∷ ys) zero x e = refl
length-without (y ∷ ys) (suc i) x e = ap suc (length-without ys i x e)

pub if_some :
    (b : Bool) (x t : State) → (if b then some x else none) ≡ some t → (b ≡ true) × (x ≡ t)
if_some true x t e = (refl, ground (arith, e))
if_some false x t e = ground (arith, e)

pub some_inj : (x t : State) → some x ≡ some t → x ≡ t
some_inj x t e = ground (arith, e)
