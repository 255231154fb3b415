-- ===== src/Store/World.antt =====
-- The tables, and actions that run one SQL statement or a transaction of several.
use opsramp_agent_orchestrat.Prelude.{
  ℕ, zero, suc, Bool, true, false, Option, none, some, List, [], ◌∷◌, ◌++◌, ltb, if◌then◌else◌,
  Text, Result, ok, err,
}
use opsramp_agent_orchestrat.Model.{
  Agent, Group, ConfigVersion, Package, Event, OpsRampAgent, OpsRampSettings, DeployJob,
  DeployHostResult,
}

-- `constraint` is a violated key, `refused` an error of the program's own, `fault` any failure of the
-- database itself.
pub data Error : Type 0 where
  not_found constraint fault : Error
  refused : Text → Error

pub record PackageRow : Type 0 where
  pub pkg : Package
  pub content : List ℕ

pub record Db : Type 0 where
  pub agents : List Agent
  pub groups : List Group
  pub versions : List ConfigVersion
  pub packages : List PackageRow
  -- group and package
  pub assignments : List (Text × Text)
  pub events : List Event
  pub inventory : List OpsRampAgent
  pub settings : Option OpsRampSettings
  pub jobs : List DeployJob
  pub job_hosts : List DeployHostResult
  -- the two sequences
  pub next_version_id : ℕ
  pub next_event_id : ℕ

-- `faults` says of each statement to come whether it fails; behind its end none does.
pub record World : Type 0 where
  pub db : Db
  pub now : ℕ
  pub faults : List Bool

abbrev pub Action : Type 0 → Type 0
Action A = World → Result Error A × World

abbrev pub continue :
    {A B : Type 0} → Result Error A × World → (A → Action B) → Result Error B × World
continue (ok a, w) f = f a w
continue (err e, w) f = (err e, w)

infixl 5 ◌>>=◌ ◌>>◌
abbrev pub ◌>>=◌ : {A B : Type 0} → Action A → (A → Action B) → Action B
◌>>=◌ m f w = continue (m w) f

abbrev pub ◌>>◌ : {B : Type 0} → Action (Unit {0}) → Action B → Action B
m >> n = m >>= λ _. n

abbrev pub pure : {A : Type 0} → A → Action A
pure a w = (ok a, w)

abbrev pub fail : {A : Type 0} → Error → Action A
fail e w = (err e, w)

-- Whether the next statement fails, and the world behind it.
unfoldable pub tick : World → List Bool → Bool × World
tick w [] = (false, w)
tick w (b ∷ bs) = (b, record w { faults = bs })

abbrev pub settle : {A : Type 0} → World → Result Error (A × Db) → Result Error A × World
settle w (ok (a, db)) = (ok a, record w { db = db })
settle w (err e) = (err e, w)

abbrev pub unless_fault :
    {A : Type 0} → (ℕ → Db → Result Error (A × Db)) → Bool × World → Result Error A × World
unless_fault f (true, w) = (err fault, w)
unless_fault f (false, w) = settle w (f w.now w.db)

-- One statement: it may fail, and then nothing is written.
unfoldable pub statement : {A : Type 0} → (ℕ → Db → Result Error (A × Db)) → Action A
unfolding tick
statement f w = unless_fault f (tick w w.faults)

-- A statement that always succeeds where the database does.
unfoldable pub write : (ℕ → Db → Db) → Action (Unit {0})
unfolding statement
write f = statement (λ now db. ok (tt, f now db))

unfoldable pub read : {A : Type 0} → (Db → Result Error A) → Action A
unfolding statement
read f = statement (λ _ db. elim (f db) [ ok a ↦ ok (a, db) | err e ↦ err e ])

abbrev pub roll_back : {A : Type 0} → Db → Result Error A × World → Result Error A × World
roll_back db (ok a, w) = (ok a, w)
roll_back db (err e, w) = (err e, record w { db = db })

-- `Begin`, the body, `Commit`, with `defer tx.Rollback`: any error undoes what the body wrote.
unfoldable pub transaction : {A : Type 0} → Action A → Action A
unfolding write
transaction body w =
    roll_back w.db ((do write (λ _ db. db); a ← body; write (λ _ db. db); pure a) w)

-- Rows: the first that passes a test, those that do not, and an update of those that do.
module _ {A : Type 0} where
  unfoldable pub find : (A → Bool) → List A → Option A
  find p [] = none
  find p (x ∷ xs) = if p x then some x else find p xs

  unfoldable pub exists : (A → Bool) → List A → Bool
  exists p [] = false
  exists p (x ∷ xs) = if p x then true else exists p xs

  unfoldable pub drop_where : (A → Bool) → List A → List A
  drop_where p [] = []
  drop_where p (x ∷ xs) = let rest = drop_where p xs in if p x then rest else x ∷ rest

  unfoldable pub update_where : (A → Bool) → (A → A) → List A → List A
  update_where p f [] = []
  update_where p f (x ∷ xs) = (if p x then f x else x) ∷ update_where p f xs

  -- `INSERT … ON CONFLICT (key) DO UPDATE`: `p` finds the row with the key.
  unfoldable pub upsert : (A → Bool) → (A → A) → A → List A → List A
  unfolding exists update_where
  upsert p f new rows = if exists p rows then update_where p f rows else rows ++ new ∷ []

  unfoldable pub require : Option A → Result Error A
  require none = err not_found
  require (some a) = ok a

  -- `ORDER BY n DESC`
  insert_desc : (A → ℕ) → A → List A → List A
  insert_desc n x [] = x ∷ []
  insert_desc n x (y ∷ ys) =
      let rest = insert_desc n x ys in if ltb (n x) (n y) then y ∷ rest else x ∷ y ∷ ys

  unfoldable pub sort_desc : (A → ℕ) → List A → List A
  unfolding insert_desc
  sort_desc n [] = []
  sort_desc n (x ∷ xs) = insert_desc n x (sort_desc n xs)

  -- `LIMIT n`
  unfoldable pub limit : ℕ → List A → List A
  limit zero xs = []
  limit (suc n) [] = []
  limit (suc n) (x ∷ xs) = x ∷ limit n xs
