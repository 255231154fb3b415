-- ===== src/DemoAgent/Packages.antt =====
-- cmd/demo-agent/packages.go: the provider of the package states. `sha256` is a parameter, as are the
-- errors of the disk.
use opsramp_agent_orchestrat.Prelude.{
  ℕ, ◌≡◌, refl, Bool, true, false, Option, none, some, List, [], Text, text_eq_refl, Result, ok,
  err,
}
use opsramp_agent_orchestrat.Prelude.Dicts
use opsramp_agent_orchestrat.Prelude.Dicts.{Dict, get-put}
use opsramp_agent_orchestrat.Opamp.Proto.{PackageStatuses}

-- The library's `PackageState`; a name that is not there has that of no fields.
pub record PackageState : Type 0 where
  pub is_there : Bool
  pub type : ℕ
  pub hash : List ℕ
  pub version : Text

abbrev no_state : PackageState
no_state = record { is_there = false; type = 0; hash = []; version = [] }

pub record Provider : Type 0 where
  pub all_hash : List ℕ
  pub states : Dict PackageState
  pub last_reported : Option PackageStatuses
  -- the files of the packages, and the errors of reading, creating and removing one
  pub contents : Dict (List ℕ)
  pub read_error : Text → Option Text
  pub write_error : Text → Option Text
  pub remove_error : Text → Option Text

unfoldable pub set_all_packages_hash : List ℕ → Provider → Provider
set_all_packages_hash hash p = record p { all_hash = hash }

unfoldable pub package_names : Provider → List Text
package_names p = Dicts.keys p.states

abbrev state_or_none : Option PackageState → PackageState
state_or_none none = no_state
state_or_none (some s) = s

unfoldable pub package_state : Text → Provider → PackageState
package_state name p = state_or_none (Dicts.get p.states name)

unfoldable pub set_package_state : Text → PackageState → Provider → Provider
set_package_state name s p = record p { states = Dicts.put p.states name s }

-- A package that is there is left as it is.
unfoldable pub create_package : Text → ℕ → Provider → Provider
create_package name type p = elim (Dicts.get p.states name) [
  | some s ↦ p
  | none ↦ record p {
    states = Dicts.put p.states name (record no_state { is_there = true; type = type });
  }
]

unfoldable pub read_hash :
    (List ℕ → List ℕ) → Option Text → Option (List ℕ) → Result Text (Option (List ℕ))
read_hash sha256 e none = ok none
read_hash sha256 none (some content) = ok (some (sha256 content))
read_hash sha256 (some e) (some content) = err e

-- No hash where there is no file.
unfoldable pub file_content_hash :
    (List ℕ → List ℕ) → Text → Provider → Result Text (Option (List ℕ))
unfolding read_hash
file_content_hash sha256 name p = read_hash sha256 (p.read_error name) (Dicts.get p.contents name)

unfoldable pub write_content : Text → List ℕ → Provider → Option Text → Option Text × Provider
write_content name content p (some e) = (some e, p)
write_content name content p none =
    (none, record p { contents = Dicts.put p.contents name content })

unfoldable pub update_content : Text → List ℕ → Provider → Option Text × Provider
unfolding write_content
update_content name content p = write_content name content p (p.write_error name)

-- The state goes before the file, also where the file stays.
unfoldable pub delete_package : Text → Provider → Option Text × Provider
delete_package name p =
    let q : Provider = record p { states = Dicts.remove p.states name } in
    elim (Dicts.get p.contents name) [
      | none ↦ (none, q)
      | some content ↦ elim (p.remove_error name) [
        | some e ↦ (some e, q)
        | none ↦ (none, record q { contents = Dicts.remove q.contents name })
      ]
    ]

unfoldable pub set_last_reported_statuses : PackageStatuses → Provider → Provider
set_last_reported_statuses s p = record p { last_reported = some s }

-- The hash of a file is that of what was written last.
pub file_content_hash-update_content :
    (sha256 : List ℕ → List ℕ) (name : Text) (content : List ℕ) (p : Provider)
    → p.write_error name ≡ none
    → p.read_error name ≡ none
    → file_content_hash sha256 name (update_content name content p).1 ≡ ok (some (sha256 content))
unfolding file_content_hash update_content
file_content_hash-update_content sha256 name content p w r =
    rw (w, get-put p.contents name name content, text_eq_refl name, r) refl
