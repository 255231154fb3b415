-- ===== src/Store/Packages/Shelf.antt =====
-- internal/store/postgres.go: the table of packages as a map from names to packages with their content.
use opsramp_agent_orchestrat.Prelude.{
  ℕ, ◌≡◌, refl, ap, ◌∙◌, true, false, Option, none, some, List, [], ◌∷◌, length, Text, Result, ok,
  err, if◌then◌else◌, text_eq, text_eq_iff, inl, inr, Bool-cases, arith,
}
use opsramp_agent_orchestrat.Model.{Package}
use opsramp_agent_orchestrat.Store.World.{
  Error, not_found, PackageRow, Db, World, find, exists, update_where, drop_where, upsert,
}
use opsramp_agent_orchestrat.Store.Rows.{find-append}
use opsramp_agent_orchestrat.Store.Steps.{IsReliable, write-IsReliable}
use opsramp_agent_orchestrat.Store.Packages.{
  has_package_name, upsert_package, get_package, get_package_content, delete_package,
}

-- What is promised: a map, by name.
abbrev pub Shelf : Type 0
Shelf = Text → Option PackageRow

abbrev pub placed : Text → Option PackageRow → Shelf → Shelf
placed name row shelf = λ m. if text_eq name m then row else shelf m

pub data Call : Type 0 where
  upload : Package → List ℕ → Call
  delete : Text → Call
  fetch fetch_content : Text → Call

pub data Answer : Type 0 where
  done missing : Answer
  failed : Error → Answer
  fetched : Package → Answer
  content_of : List ℕ → Answer

-- What a call does to the map, at a time.
abbrev pub shelved : ℕ → Package → List ℕ → PackageRow
shelved now p content = record {
  pkg = record p { size = length content; updated_at = now };
  content = content;
}

abbrev pub is_there : Option PackageRow → Answer
is_there none = missing
is_there (some r) = done

abbrev pub package_answer : Option PackageRow → Answer
package_answer none = missing
package_answer (some r) = fetched r.pkg

abbrev pub content_answer : Option PackageRow → Answer
content_answer none = missing
content_answer (some r) = content_of r.content

abbrev pub promised : ℕ → Call → Shelf → Answer × Shelf
promised now (upload p content) shelf = (done, placed p.name (some (shelved now p content)) shelf)
promised now (delete name) shelf = (is_there (shelf name), placed name none shelf)
promised now (fetch name) shelf = (package_answer (shelf name), shelf)
promised now (fetch_content name) shelf = (content_answer (shelf name), shelf)

-- What the store does.
abbrev pub answer_of : {A : Type 0} → (A → Answer) → Result Error A → Answer
answer_of f (ok a) = f a
answer_of f (err not_found) = missing
answer_of f (err e) = failed e

unfoldable pub performed : Call → World → Answer × World
unfolding upsert_package delete_package get_package get_package_content
performed (upload p content) w =
    let r = upsert_package p content w in (answer_of (λ _. done) r.0, r.1)
performed (delete name) w = let r = delete_package name w in (answer_of (λ _. done) r.0, r.1)
performed (fetch name) w = let r = get_package name w in (answer_of fetched r.0, r.1)
performed (fetch_content name) w =
    let r = get_package_content name w in (answer_of content_of r.0, r.1)

-- The answers to calls at their times, by the promise and by the store.
unfoldable pub promised_answers : List (ℕ × Call) → Shelf → List Answer
promised_answers [] shelf = []
promised_answers ((now, c) ∷ calls) shelf =
    let r = promised now c shelf in r.0 ∷ promised_answers calls r.1

unfoldable pub answers : List (ℕ × Call) → World → List Answer
unfolding performed
answers [] w = []
answers ((now, c) ∷ calls) w =
    let r = performed c (record w { now = now }) in r.0 ∷ answers calls r.1

-- The map that the table stands for.
abbrev pub shelf_of : Db → Shelf
shelf_of db = λ name. find (has_package_name name) db.packages

find-update_row :
    (n m : Text) (row : PackageRow) (rows : List PackageRow)
    → row.pkg.name ≡ n
    → find (has_package_name m) (update_where (has_package_name n) (λ _. row) rows) ≡ (
        if text_eq n m
        then (if exists (has_package_name n) rows then some row else none)
        else find (has_package_name m) rows)
unfolding find update_where exists has_package_name
find-update_row n m row [] e = ground arith
find-update_row n m row (x ∷ rows) e = ground (
  arith,
  find-update_row n m row rows e,
  e,
  text_eq_iff x.pkg.name n,
  text_eq_iff x.pkg.name m,
  text_eq_iff row.pkg.name m,
  text_eq_iff n m,
)

pub find-drop_row :
    (n m : Text) (rows : List PackageRow)
    → find (has_package_name m) (drop_where (has_package_name n) rows)
      ≡ placed n none (λ k. find (has_package_name k) rows) m
unfolding find drop_where has_package_name
find-drop_row n m [] = ground arith
find-drop_row n m (x ∷ rows) = ground (
  arith,
  find-drop_row n m rows,
  text_eq_iff x.pkg.name n,
  text_eq_iff x.pkg.name m,
  text_eq_iff n m,
)

absent :
    (n m : Text) (rows : List PackageRow)
    → exists (has_package_name n) rows ≡ false
    → text_eq n m ≡ true
    → find (has_package_name m) rows ≡ none
unfolding find exists has_package_name
absent n m [] h e = refl
absent n m (x ∷ rows) h e = ground (
  arith,
  absent n m rows,
  h,
  e,
  text_eq_iff x.pkg.name n,
  text_eq_iff x.pkg.name m,
  text_eq_iff n m,
)

appended :
    (n m : Text) (row : PackageRow) (rows : List PackageRow)
    → row.pkg.name ≡ n
    → exists (has_package_name n) rows ≡ false
    → (elim (find (has_package_name m) rows) [
      | none ↦ find (has_package_name m) (row ∷ [])
      | some x ↦ some x
    ])
      ≡ placed n (some row) (λ k. find (has_package_name k) rows) m
unfolding find has_package_name
appended n m row rows e h =
    let same : row.pkg.name ≡ n = e in
    ground (arith, same, absent n m rows h, text_eq_iff row.pkg.name m, text_eq_iff n m)

pub find-upsert_row :
    (n m : Text) (row : PackageRow) (rows : List PackageRow)
    → row.pkg.name ≡ n
    → find (has_package_name m) (upsert (has_package_name n) (λ _. row) row rows)
      ≡ placed n (some row) (λ k. find (has_package_name k) rows) m
unfolding upsert
find-upsert_row n m row rows e = elim (Bool-cases (exists (has_package_name n) rows)) [
  | inl there ↦ rw there (find-update_row n m row rows e ∙ rw there refl)
  | inr none_there ↦
      rw none_there
        (find-append (has_package_name m) rows (row ∷ []) ∙ appended n m row rows e none_there)
]

-- The table stands for the map.
abbrev pub Holds : Shelf → World → Type 0
Holds shelf w = IsReliable w × ((name : Text) → shelf_of w.db name ≡ shelf name)

pub performed-upload :
    (p : Package) (content : List ℕ) (w : World)
    → IsReliable w
    → performed (upload p content) w ≡ (
      done,
      record w {
        db = record w.db {
          packages =
              upsert
                (has_package_name p.name)
                (λ _. shelved w.now p content)
                (shelved w.now p content)
                w.db.packages;
        };
      },
    )
unfolding performed
performed-upload p content w r =
    ap (λ (q : Result Error (Unit {0}) × World). (answer_of (λ _. done) q.0, q.1))
      (write-IsReliable
        (λ now db. record db {
          packages =
              upsert (has_package_name p.name) (λ _. shelved now p content) (shelved now p content)
                db.packages;
        })
        w r)
