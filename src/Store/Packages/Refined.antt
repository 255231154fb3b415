-- ===== src/Store/Packages/Refined.antt =====
-- internal/store/postgres.go: the packages of the store are the map that it promises.
use opsramp_agent_orchestrat.Prelude.{
  ℕ, ◌≡◌, refl, ap, sym, ◌∙◌, Bool, true, false, Option, none, some, List, [], ◌∷◌, Text, Result,
  ok, err, if◌then◌else◌, text_eq, text_eq_iff, inl, inr, Bool-cases, Option-cases,
}
use opsramp_agent_orchestrat.Model.{Package}
use opsramp_agent_orchestrat.Store.World.{
  Error, not_found, PackageRow, World, settle, find, exists, drop_where,
}
use opsramp_agent_orchestrat.Store.Rows.{exists_lem}
use opsramp_agent_orchestrat.Store.Steps.{IsReliable, read-IsReliable, statement-IsReliable}
use opsramp_agent_orchestrat.Store.Packages.{
  has_package_name, require_package, require_content, assigns_package,
}
use opsramp_agent_orchestrat.Store.Packages.Shelf.{
  Shelf, placed, Call, upload, delete, fetch, fetch_content, Answer, done, missing, fetched,
  content_of, shelved, is_there, package_answer, content_answer, promised, answer_of, performed,
  promised_answers, answers, shelf_of, find-upsert_row, find-drop_row, Holds, performed-upload,
}

-- The answer is the promised one, and the table stands for the promised map.
abbrev Refines : Call → Shelf → World → Type 0
Refines c shelf w =
    ((performed c w).0 ≡ (promised w.now c shelf).0)
    × Holds (promised w.now c shelf).1 (performed c w).1

placed-ext :
    (name : Text) (row : Option PackageRow) (f g : Shelf) (m : Text)
    → f m ≡ g m
    → placed name row f m ≡ placed name row g m
placed-ext name row f g m e = rw e refl

package_row : (o : Option PackageRow) → answer_of fetched (require_package o) ≡ package_answer o
unfolding require_package
package_row none = refl
package_row (some r) = refl

content_row : (o : Option PackageRow) → answer_of content_of (require_content o) ≡ content_answer o
unfolding require_content
content_row none = refl
content_row (some r) = refl

upload-Refines :
    (p : Package) (content : List ℕ) (shelf : Shelf) (w : World)
    → Holds shelf w
    → Refines (upload p content) shelf w
upload-Refines p content shelf w (r, h) = rw (performed-upload p content w r) (
  refl,
  (
    r,
    λ m.
        find-upsert_row p.name m (shelved w.now p content) w.db.packages refl
        ∙ placed-ext p.name (some (shelved w.now p content)) (shelf_of w.db) shelf m (h m),
  ),
)

fetch-Refines :
    (name : Text) (shelf : Shelf) (w : World) → Holds shelf w → Refines (fetch name) shelf w
unfolding performed
fetch-Refines name shelf w (r, h) =
    rw (read-IsReliable (λ db. require_package (find (has_package_name name) db.packages)) w r)
      (package_row (shelf_of w.db name) ∙ ap package_answer (h name), (r, h))

fetch_content-Refines :
    (name : Text) (shelf : Shelf) (w : World) → Holds shelf w → Refines (fetch_content name) shelf w
unfolding performed
fetch_content-Refines name shelf w (r, h) =
    rw (read-IsReliable (λ db. require_content (find (has_package_name name) db.packages)) w r)
      (content_row (shelf_of w.db name) ∙ ap content_answer (h name), (r, h))

-- Behind a deletion the table is without the rows of the name.
without : Text → World → World
without name w = record w {
  db = record w.db {
    packages = drop_where (has_package_name name) w.db.packages;
    assignments = drop_where (assigns_package name) w.db.assignments;
  };
}

abbrev told : Result Error (Unit {0}) × World → Answer × World
told q = (answer_of (λ _. done) q.0, q.1)

settled :
    (name : Text) (w : World) (there : Bool)
    → told (settle w (if there then ok (tt, (without name w).db) else err not_found))
      ≡ (if there then (done, without name w) else (missing, w))
unfolding without
settled name w true = refl
settled name w false = refl

performed-delete :
    (name : Text) (w : World)
    → IsReliable w
    → performed (delete name) w ≡ (
        if exists (has_package_name name) w.db.packages
        then (done, without name w)
        else (missing, w))
unfolding performed without
performed-delete name w r =
    ap told (
      statement-IsReliable
        (λ _ db.
          if exists (has_package_name name) db.packages
          then ok (
            tt,
            record db {
              packages = drop_where (has_package_name name) db.packages;
              assignments = drop_where (assigns_package name) db.assignments;
            },
          )
          else err not_found)
        w r)
    ∙ settled name w (exists (has_package_name name) w.db.packages)

placed_nothing :
    (name : Text) (shelf : Shelf) (m : Text)
    → shelf name ≡ none
    → shelf m ≡ placed name none shelf m
placed_nothing name shelf m e = elim (Bool-cases (text_eq name m)) [
  | inl q ↦ rw q (ap shelf (sym ((text_eq_iff name m).0 q)) ∙ e)
  | inr q ↦ rw q refl
]

delete-Refines :
    (name : Text) (shelf : Shelf) (w : World) → Holds shelf w → Refines (delete name) shelf w
unfolding without
delete-Refines name shelf w (r, h) = elim (Option-cases (shelf_of w.db name)) [
  | inl e ↦
      let absent : exists (has_package_name name) w.db.packages ≡ false =
        exists_lem (has_package_name name) w.db.packages ∙ rw e refl in
      rw (performed-delete name w r, absent)
        (
          ap is_there (sym e ∙ h name),
          (r, λ m. h m ∙ placed_nothing name shelf m (sym (h name) ∙ e)),
        )
  | inr (row, e) ↦
      let there : exists (has_package_name name) w.db.packages ≡ true =
        exists_lem (has_package_name name) w.db.packages ∙ rw e refl in
      rw (performed-delete name w r, there)
        (
          ap is_there (sym e ∙ h name),
          (
            r,
            λ m.
                find-drop_row name m w.db.packages
                ∙ placed-ext name none (shelf_of w.db) shelf m (h m),
          ),
        )
]

performed-Refines : (c : Call) (shelf : Shelf) (w : World) → Holds shelf w → Refines c shelf w
performed-Refines (upload p content) shelf w h = upload-Refines p content shelf w h
performed-Refines (delete name) shelf w h = delete-Refines name shelf w h
performed-Refines (fetch name) shelf w h = fetch-Refines name shelf w h
performed-Refines (fetch_content name) shelf w h = fetch_content-Refines name shelf w h

-- Uploads, deletions and reads in any order, at any times, while the database answers, give the same
-- answers as a map from names to packages with their content: a package is what was uploaded last under
-- its name, with the size of its content, and is missing before the first upload and behind a deletion.
pub answers-promised :
    (calls : List (ℕ × Call)) (shelf : Shelf) (w : World)
    → Holds shelf w
    → answers calls w ≡ promised_answers calls shelf
unfolding answers promised_answers
answers-promised [] shelf w h = refl
answers-promised ((now, c) ∷ calls) shelf w h =
    let at : World = record w { now = now } in
    let one = performed-Refines c shelf at h in
    let rest = answers-promised calls (promised now c shelf).1 (performed c at).1 one.1 in
    λ i. one.0 i ∷ rest i
