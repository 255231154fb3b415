-- ===== src/Store/Packages.antt =====
-- internal/store/postgres.go: packages and their assignment to groups.
pub mod Shelf
pub mod Refined
use opsramp_agent_orchestrat.Prelude.{
  ℕ, Bool, not, ◌&&◌, Option, none, some, List, [], ◌∷◌, ◌++◌, length, if◌then◌else◌, Text, text_eq,
  Result, ok, err,
}
use opsramp_agent_orchestrat.Prelude.Sorting.{sort_by}
use opsramp_agent_orchestrat.Model.{Package}
use opsramp_agent_orchestrat.Store.World.{
  Error, not_found, constraint, PackageRow, Db, Action, statement, write, read, find, exists,
  drop_where, upsert,
}
use opsramp_agent_orchestrat.Store.Agents.{has_group_name}

unfoldable pub has_package_name : Text → PackageRow → Bool
has_package_name name r = text_eq r.pkg.name name

-- The stored size is that of the content.
unfoldable pub upsert_package : Package → List ℕ → Action (Unit {0})
unfolding write has_package_name
upsert_package p content = write λ now db.
    let row : PackageRow = record {
      pkg = record p { size = length content; updated_at = now };
      content = content;
    } in
    record db { packages = upsert (has_package_name p.name) (λ _. row) row db.packages }

unfoldable pub require_package : Option PackageRow → Result Error Package
require_package none = err not_found
require_package (some r) = ok r.pkg

unfoldable pub get_package : Text → Action Package
unfolding read has_package_name require_package
get_package name = read (λ db. require_package (find (has_package_name name) db.packages))

unfoldable pub require_content : Option PackageRow → Result Error (List ℕ)
require_content none = err not_found
require_content (some r) = ok r.content

unfoldable pub get_package_content : Text → Action (List ℕ)
unfolding read has_package_name require_content
get_package_content name = read (λ db. require_content (find (has_package_name name) db.packages))

unfoldable pub pkgs_of : List PackageRow → List Package
pkgs_of [] = []
pkgs_of (r ∷ rs) = r.pkg ∷ pkgs_of rs

unfoldable pub list_packages : Action (List Package)
unfolding read pkgs_of
list_packages = read (λ db. ok (sort_by (λ (p : Package). p.name) (pkgs_of db.packages)))

unfoldable pub assigns : Text → Text → Text × Text → Bool
assigns group pkg (g, p) = text_eq g group && text_eq p pkg

unfoldable pub assigns_package : Text → Text × Text → Bool
assigns_package pkg (g, p) = text_eq p pkg

-- The row goes, and with it its assignments.
unfoldable pub delete_package : Text → Action (Unit {0})
unfolding statement has_package_name assigns_package
delete_package name = statement λ _ db.
    if exists (has_package_name name) db.packages
    then ok (
      tt,
      record db {
        packages = drop_where (has_package_name name) db.packages;
        assignments = drop_where (assigns_package name) db.assignments;
      },
    )
    else err not_found

-- `ON CONFLICT DO NOTHING`; both names are references.
unfoldable pub assign_package : Text → Text → Action (Unit {0})
unfolding statement has_package_name has_group_name assigns
assign_package group pkg = statement λ _ db.
    if exists (assigns group pkg) db.assignments
    then ok (tt, db)
    else if exists (has_group_name group) db.groups && exists (has_package_name pkg) db.packages
    then ok (tt, record db { assignments = db.assignments ++ (group, pkg) ∷ [] })
    else err constraint

unfoldable pub unassign_package : Text → Text → Action (Unit {0})
unfolding write assigns
unassign_package group pkg =
    write (λ _ db. record db { assignments = drop_where (assigns group pkg) db.assignments })

-- The join of the packages with the assignments of a group, by name.
unfoldable pub group_packages : Text → Db → Result Error (List Package)
unfolding pkgs_of assigns
group_packages group db = ok (
    sort_by (λ (p : Package). p.name)
      (pkgs_of
        (drop_where (λ r. not (exists (assigns group r.pkg.name) db.assignments)) db.packages)))

unfoldable pub list_group_packages : Text → Action (List Package)
unfolding read group_packages
list_group_packages group = read (group_packages group)
