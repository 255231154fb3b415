-- ===== src/Store/Steps.antt =====
-- What a statement gives where the database answers, and what it leaves where it does not.
use opsramp_agent_orchestrat.Prelude.{
  ℕ, ◌≡◌, refl, ap, subst, ◌∙◌, Bool, true, false, List, [], ◌∷◌, Result, ok, err, arith,
}
use opsramp_agent_orchestrat.Store.World.{
  Error, Db, World, Action, tick, unless_fault, settle, statement, write, read, continue, ◌>>=◌,
  roll_back, transaction,
}

-- The next statement does not fail.
abbrev pub Answers : World → Type 0
Answers w = (tick w w.faults).0 ≡ false

pub tick-db : (w : World) (bs : List Bool) → (tick w bs).1.db ≡ w.db
unfolding tick
tick-db w [] = refl
tick-db w (b ∷ bs) = refl

pub tick-now : (w : World) (bs : List Bool) → (tick w bs).1.now ≡ w.now
unfolding tick
tick-now w [] = refl
tick-now w (b ∷ bs) = refl

-- The world behind the tick of the next statement.
abbrev pub ticked : World → World
ticked w = (tick w w.faults).1

unless_fault-false :
    {A : Type 0} (f : ℕ → Db → Result Error (A × Db)) (p : Bool × World)
    → p.0 ≡ false
    → unless_fault f p ≡ settle p.1 (f p.1.now p.1.db)
unless_fault-false f (true, w) h = ground (arith, h)
unless_fault-false f (false, w) h = refl

pub statement-Answers :
    {A : Type 0} (f : ℕ → Db → Result Error (A × Db)) (w : World)
    → Answers w
    → statement f w ≡ settle (ticked w) (f w.now w.db)
unfolding statement
statement-Answers f w h =
    subst (λ n. statement f w ≡ settle (ticked w) (f n w.db)) (tick-now w w.faults)
      (subst (λ db. statement f w ≡ settle (ticked w) (f (ticked w).now db)) (tick-db w w.faults)
        (unless_fault-false f (tick w w.faults) h))

settle-read :
    {A : Type 0} (w : World) (r : Result Error A) (db : Db)
    → (settle w (elim r [ ok a ↦ ok (a, db) | err e ↦ err e ])).0 ≡ r
settle-read w (ok a) db = refl
settle-read w (err e) db = refl

pub read-Answers :
    {A : Type 0} (f : Db → Result Error A) (w : World) → Answers w → (read f w).0 ≡ f w.db
unfolding read
read-Answers f w h =
    ap (λ p. p.0)
      (statement-Answers (λ _ db. elim (f db) [ ok a ↦ ok (a, db) | err e ↦ err e ]) w h)
    ∙ settle-read (ticked w) (f w.db) w.db

settle-read_db :
    {A : Type 0} (w : World) (r : Result Error A)
    → (settle w (elim r [ ok a ↦ ok (a, w.db) | err e ↦ err e ])).1.db ≡ w.db
settle-read_db w (ok a) = refl
settle-read_db w (err e) = refl

unless_fault-read :
    {A : Type 0} (f : Db → Result Error A) (p : Bool × World)
    → (unless_fault (λ _ db. elim (f db) [ ok a ↦ ok (a, db) | err e ↦ err e ]) p).1.db ≡ p.1.db
unless_fault-read f (true, w) = refl
unless_fault-read f (false, w) = settle-read_db w (f w.db)

-- Reading leaves the database as it was, also where it fails.
pub read-db : {A : Type 0} (f : Db → Result Error A) (w : World) → (read f w).1.db ≡ w.db
unfolding read statement
read-db f w = unless_fault-read f (tick w w.faults) ∙ tick-db w w.faults

-- No statement to come fails.
abbrev pub IsReliable : World → Type 0
IsReliable w = w.faults ≡ []

pub tick-IsReliable : (w : World) → IsReliable w → tick w w.faults ≡ (false, w)
unfolding tick
tick-IsReliable w h = rw h refl

pub statement-IsReliable :
    {A : Type 0} (f : ℕ → Db → Result Error (A × Db)) (w : World)
    → IsReliable w
    → statement f w ≡ settle w (f w.now w.db)
unfolding statement
statement-IsReliable f w h = ap (unless_fault f) (tick-IsReliable w h)

settle-same :
    {A : Type 0} (w : World) (r : Result Error A)
    → settle w (elim r [ ok a ↦ ok (a, w.db) | err e ↦ err e ]) ≡ (r, w)
settle-same w (ok a) = refl
settle-same w (err e) = refl

pub read-IsReliable :
    {A : Type 0} (f : Db → Result Error A) (w : World) → IsReliable w → read f w ≡ (f w.db, w)
unfolding read
read-IsReliable f w h =
    statement-IsReliable (λ _ db. elim (f db) [ ok a ↦ ok (a, db) | err e ↦ err e ]) w h
    ∙ settle-same w (f w.db)

pub write-IsReliable :
    (f : ℕ → Db → Db) (w : World)
    → IsReliable w
    → write f w ≡ (ok tt, record w { db = f w.now w.db })
unfolding write
write-IsReliable f w h = statement-IsReliable (λ now db. ok (tt, f now db)) w h

pub bind-ok :
    {A B : Type 0} (m : Action A) (f : A → Action B) (w v : World) (a : A)
    → m w ≡ (ok a, v)
    → (m >>= f) w ≡ f a v
bind-ok m f w v a h = ap (λ p. continue p f) h

-- A transaction whose body succeeds does what the body does.
pub transaction-ok :
    {A : Type 0} (body : Action A) (w v : World) (a : A)
    → IsReliable w
    → IsReliable v
    → body w ≡ (ok a, v)
    → transaction body w ≡ (ok a, v)
unfolding transaction
transaction-ok body w v a r s h = ap (roll_back w.db) (
    bind-ok (write (λ _ db. db)) _ w w tt (write-IsReliable (λ _ db. db) w r)
    ∙ bind-ok body _ w v a h
    ∙ bind-ok (write (λ _ db. db)) _ v v tt (write-IsReliable (λ _ db. db) v s))

roll_back-err :
    {A : Type 0} (db : Db) (p : Result Error A × World) (e : Error)
    → (roll_back db p).0 ≡ err e
    → (roll_back db p).1.db ≡ db
roll_back-err db (ok a, w) e h = ground (arith, h)
roll_back-err db (err f, w) e h = refl

-- A transaction that fails, at whatever statement, leaves the database as it was.
pub transaction-err :
    {A : Type 0} (body : Action A) (w : World) (e : Error)
    → (transaction body w).0 ≡ err e
    → (transaction body w).1.db ≡ w.db
unfolding transaction
transaction-err body w e h = roll_back-err w.db _ e h
