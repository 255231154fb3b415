-- ===== src/Opamp/Offers.antt =====
-- internal/opampserver/reconcile.go and push.go: what the server offers an agent.
-- `sha256` is a parameter.
pub mod Settled
use opsramp_agent_orchestrat.Prelude.{
  ℕ, zero, suc, ◌+◌, ◌*◌, ◌/◌, ◌%◌, Bool, true, false, not, ◌&&◌, Option, none, some, List, [], ◌∷◌,
  ◌++◌, ◌==◌, if◌then◌else◌, Text, codes, text_eq, is_empty, Result, ok, err,
}
use opsramp_agent_orchestrat.Prelude.Dicts
use opsramp_agent_orchestrat.Prelude.Dicts.{Dict}
use opsramp_agent_orchestrat.Prelude.Sorting.{sort_by}
use opsramp_agent_orchestrat.Model.{Agent, ConfigFile, ConfigVersion, Package}
use opsramp_agent_orchestrat.Store.World.{Error, World}
use opsramp_agent_orchestrat.Store.Groups.{get_current_config}
use opsramp_agent_orchestrat.Store.Packages.{list_group_packages}
use opsramp_agent_orchestrat.Opamp.Hex.{hex_decode}
use opsramp_agent_orchestrat.Opamp.Resolve.{Effect}
use opsramp_agent_orchestrat.Opamp.Proto.{model_files_to_config_map}

-- `a & b` on integers of `width` bits.
unfoldable pub bit_and : ℕ → ℕ → ℕ → ℕ
bit_and zero a b = 0
bit_and (suc width) a b = (a % 2) * (b % 2) + 2 * bit_and width (a / 2) (b / 2)

unfoldable pub has_capability : ℕ → ℕ → Bool
unfolding bit_and
has_capability caps bit = not (bit_and 64 caps bit == 0)

-- The protocol's bits.
abbrev pub accepts_remote_config : ℕ
accepts_remote_config = 2

abbrev pub accepts_packages : ℕ
accepts_packages = 8

pub record RemoteConfig : Type 0 where
  pub config : Dict ConfigFile
  pub config_hash : List ℕ

pub record PackageAvailable : Type 0 where
  pub type : ℕ
  pub version : Text
  pub download_url : Text
  -- of the file, and of the package
  pub content_hash : List ℕ
  pub hash : List ℕ

pub record PackagesAvailable : Type 0 where
  pub packages : Dict PackageAvailable
  pub all_packages_hash : List ℕ

pub record ServerToAgent : Type 0 where
  pub instance_uid : List ℕ
  pub remote_config : Option RemoteConfig
  pub packages_available : Option PackagesAvailable

abbrev pub reply : List ℕ → ServerToAgent
reply uid = record { instance_uid = uid; remote_config = none; packages_available = none }

-- `cfg.PublicBaseURL` and `sha256`.
pub record Offering : Type 0 where
  pub public_base_url : Text
  pub sha256 : List ℕ → List ℕ

package_available : Offering → Package → PackageAvailable
unfolding hex_decode
package_available o p = record {
  type = p.type;
  version = p.version;
  download_url = o.public_base_url ++ codes "/api/v1/packages/" ++ p.name ++ codes "/content";
  content_hash = (hex_decode p.content_hash).0;
  hash = (hex_decode p.content_hash).0;
}

available_from : Offering → Dict PackageAvailable → List Package → Dict PackageAvailable
unfolding package_available
available_from o m [] = m
available_from o m (p ∷ ps) = available_from o (Dicts.put m p.name (package_available o p)) ps

hashed_packages : List Package → List ℕ
unfolding hex_decode
hashed_packages [] = []
hashed_packages (p ∷ ps) = p.name ++ 0 ∷ (hex_decode p.content_hash).0 ++ hashed_packages ps

abbrev pub package_name : Package → Text
package_name p = p.name

-- The offer, which holds its hash.
unfoldable pub build_packages_available : Offering → List Package → PackagesAvailable
unfolding sort_by available_from hashed_packages
build_packages_available o pkgs = record {
  packages = available_from o [] (sort_by package_name pkgs);
  all_packages_hash = o.sha256 (hashed_packages (sort_by package_name pkgs));
}

-- The config that a version with files stands for.
unfoldable pub config_offer : Result Error ConfigVersion → Option RemoteConfig
unfolding model_files_to_config_map hex_decode
config_offer (err e) = none
config_offer (ok cv) =
    if is_empty cv.files
    then none
    else some (record {
      config = model_files_to_config_map cv.files;
      config_hash = (hex_decode cv.hash).0;
    })

unfoldable pub packages_offer : Offering → Result Error (List Package) → Option PackagesAvailable
unfolding build_packages_available
packages_offer o (err e) = none
packages_offer o (ok pkgs) = if is_empty pkgs then none else some (build_packages_available o pkgs)

-- What an agent says that it has: the hash of its last remote config and of all its packages, each
-- empty where the message has no such section.
pub record Reported : Type 0 where
  pub last_remote_config_hash : List ℕ
  pub all_packages_hash : List ℕ

unfoldable pub changed_config : List ℕ → Option RemoteConfig → Option RemoteConfig
changed_config reported none = none
changed_config reported (some c) = if not (text_eq c.config_hash reported) then some c else none

unfoldable pub changed_packages : List ℕ → Option PackagesAvailable → Option PackagesAvailable
changed_packages reported none = none
changed_packages reported (some p) =
    if not (text_eq p.all_packages_hash reported) then some p else none

-- The config of the group for an agent with the capability, else nothing and no statement.
unfoldable pub desired_config : Agent → Effect (Option RemoteConfig)
unfolding has_capability get_current_config config_offer
desired_config agent w =
    if has_capability agent.capabilities accepts_remote_config
    then (
      config_offer (get_current_config agent.resolved_group w).0,
      (get_current_config agent.resolved_group w).1,
    )
    else (none, w)

unfoldable pub desired_packages : Offering → Agent → Effect (Option PackagesAvailable)
unfolding has_capability list_group_packages packages_offer
desired_packages o agent w =
    if has_capability agent.capabilities accepts_packages
    then (
      packages_offer o (list_group_packages agent.resolved_group w).0,
      (list_group_packages agent.resolved_group w).1,
    )
    else (none, w)

unfoldable pub build_server_to_agent : Offering → Agent → List ℕ → Reported → Effect ServerToAgent
unfolding desired_config desired_packages changed_config changed_packages
build_server_to_agent o agent uid reported w =
    let config = desired_config agent w in
    let packages = desired_packages o agent config.1 in
    (
      record {
        instance_uid = uid;
        remote_config = changed_config reported.last_remote_config_hash config.0;
        packages_available = changed_packages reported.all_packages_hash packages.0;
      },
      packages.1,
    )

-- The agent itself leaves out what it has.
unfoldable pub build_offer_for_push : Offering → Agent → List ℕ → Effect ServerToAgent
unfolding desired_config desired_packages
build_offer_for_push o agent uid w =
    let config = desired_config agent w in
    let packages = desired_packages o agent config.1 in
    (
      record { instance_uid = uid; remote_config = config.0; packages_available = packages.0 },
      packages.1,
    )
