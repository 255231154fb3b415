-- ===== src/Reconcile.antt =====
-- internal/reconcile/reconcile.go: the fleet report and its recommendations.
pub mod Versions
pub mod Fleet
pub mod Status
use opsramp_agent_orchestrat.Prelude.{
  ℕ, zero, suc, ◌+◌, Bool, true, false, not, ◌&&◌, Option, none, some, List, [], ◌∷◌, ◌++◌, length,
  if◌then◌else◌, Text, codes, text_eq, is_empty, trim_space, Result, ok, err,
}
use opsramp_agent_orchestrat.Prelude.Dicts
use opsramp_agent_orchestrat.Prelude.Dicts.{Dict}
use opsramp_agent_orchestrat.Model.{OpsRampAgent}
use opsramp_agent_orchestrat.Reconcile.Versions.{
  Sign, minus, plus, same, compare_version, VersionCount, sort_versions_desc,
}
use opsramp_agent_orchestrat.Reconcile.Status.{Class, down, up, unknown, classify}

pub record HostRef : Type 0 where
  pub resource_id : Text
  pub name : Text
  pub host_name : Text
  pub ip_address : Text
  pub agent_version : Text
  pub agent_status : Text

pub record Recommendation : Type 0 where
  pub kind : Text
  pub action : Text
  pub reason : Text
  pub target_spec : Text
  pub hosts : List HostRef

pub record Report : Type 0 where
  pub total : ℕ
  pub active : ℕ
  pub down_count : ℕ
  pub unknown_count : ℕ
  pub latest_version : Text
  pub outdated : ℕ
  pub versions : List VersionCount
  pub recommendations : List Recommendation
  pub generated_at : ℕ

unfoldable pub ref : OpsRampAgent → HostRef
ref a = record {
  resource_id = a.resource_id;
  name = a.name;
  host_name = a.host_name;
  ip_address = a.ip_address;
  agent_version = a.agent_version;
  agent_status = a.agent_status;
}

-- `strings.Join` with commas.
unfoldable pub join_commas : List Text → Text
join_commas [] = []
join_commas (t ∷ []) = t
join_commas (t ∷ u ∷ ts) = t ++ 44 ∷ join_commas (u ∷ ts)

unfoldable pub ip_list : List HostRef → List Text
ip_list [] = []
ip_list (h ∷ hs) = h.ip_address ∷ ip_list hs

unfoldable pub join_ips : List HostRef → Text
unfolding join_commas ip_list
join_ips hs = join_commas (ip_list hs)

unfoldable pub is_plus : Sign → Bool
is_plus plus = true
is_plus _ = false

unfoldable pub is_minus : Sign → Bool
is_minus minus = true
is_minus _ = false

abbrev pub unknown_version : Text
unknown_version = codes "unknown"

-- The version under which an agent is counted.
unfoldable pub version_of : OpsRampAgent → Text
version_of a = let v = trim_space a.agent_version in if is_empty v then unknown_version else v

-- `counts` and `LatestVersion` of the first loop.
pub record Histogram : Type 0 where
  pub counts : Dict ℕ
  pub latest : Text

old_count : Option ℕ → ℕ
old_count none = 0
old_count (some n) = n

unfoldable pub count_agent : Histogram → OpsRampAgent → Histogram
unfolding old_count is_plus version_of
count_agent h a =
    let v = version_of a in
    record {
      counts = Dicts.put h.counts v (old_count (Dicts.get h.counts v) + 1);
      latest =
          if not (text_eq v unknown_version) && is_plus (compare_version v h.latest)
          then v
          else h.latest;
    }

unfoldable pub histogram_from : Histogram → List OpsRampAgent → Histogram
unfolding count_agent
histogram_from h [] = h
histogram_from h (a ∷ agents) = histogram_from (count_agent h a) agents

unfoldable pub histogram : List OpsRampAgent → Histogram
unfolding histogram_from
histogram agents = histogram_from (record { counts = []; latest = [] }) agents

unfoldable pub version_counts : Dict ℕ → List VersionCount
version_counts [] = []
version_counts ((v, n) ∷ m) = record { version = v; count = n } ∷ version_counts m

-- The counters and host lists of the second loop.
pub record Tally : Type 0 where
  pub active : ℕ
  pub down_count : ℕ
  pub unknown_count : ℕ
  pub outdated : ℕ
  pub down_hosts : List HostRef
  pub outdated_hosts : List HostRef

-- A host without an address cannot be a target.
listed : OpsRampAgent → List HostRef → List HostRef
unfolding ref
listed a hs = if not (is_empty a.ip_address) then hs ++ ref a ∷ [] else hs

unfoldable pub by_class : Class → OpsRampAgent → Tally → Tally
unfolding listed
by_class down a t = record t { down_count = t.down_count + 1; down_hosts = listed a t.down_hosts }
by_class up a t = record t { active = t.active + 1 }
by_class unknown a t = record t { unknown_count = t.unknown_count + 1 }

unfoldable pub is_outdated : Text → OpsRampAgent → Bool
unfolding is_minus
is_outdated latest a =
    let v = trim_space a.agent_version in
    not (is_empty latest) && (not (is_empty v) && is_minus (compare_version v latest))

unfoldable pub tally_agent : Text → Tally → OpsRampAgent → Tally
unfolding by_class listed
tally_agent latest t a =
    let t' = by_class (classify a.agent_status) a t in
    if is_outdated latest a
    then record t' { outdated = t'.outdated + 1; outdated_hosts = listed a t'.outdated_hosts }
    else t'

unfoldable pub tally_from : Text → Tally → List OpsRampAgent → Tally
unfolding tally_agent
tally_from latest t [] = t
tally_from latest t (a ∷ agents) = tally_from latest (tally_agent latest t a) agents

unfoldable pub tally : Text → List OpsRampAgent → Tally
unfolding tally_from
tally latest agents =
    tally_from latest
      (record {
        active = 0;
        down_count = 0;
        unknown_count = 0;
        outdated = 0;
        down_hosts = [];
        outdated_hosts = [];
      })
      agents

-- A recommendation is made where there is a host for it.
recommend : Text → Text → List HostRef → List Recommendation
unfolding join_ips
recommend kind reason [] = []
recommend kind reason (h ∷ hs) =
    record {
      kind = kind;
      action = kind;
      reason = reason;
      target_spec = join_ips (h ∷ hs);
      hosts = h ∷ hs;
    }
    ∷ []

abbrev pub repair_reason : Text
repair_reason =
    codes "Agent reporting down/inactive "
    ++ 226 ∷ 128 ∷ 148 ∷ codes " re-run the installer to restore it."

abbrev pub upgrade_reason : Text → Text
upgrade_reason latest =
    codes "Agent behind the newest version in the fleet (" ++ (latest ++ codes ").")

-- The report that `Evaluate` builds of an inventory: `now` is the time, `ranged` the order in which Go
-- ranges over the map of counts.
unfoldable pub report : ℕ → (Dict ℕ → Dict ℕ) → List OpsRampAgent → Report
unfolding recommend version_counts
report now ranged agents =
    let h = histogram agents in
    let t = tally h.latest agents in
    record {
      total = length agents;
      active = t.active;
      down_count = t.down_count;
      unknown_count = t.unknown_count;
      latest_version = h.latest;
      outdated = t.outdated;
      versions = sort_versions_desc (version_counts (ranged h.counts));
      recommendations =
          recommend (codes "repair") repair_reason t.down_hosts
          ++ recommend (codes "upgrade") (upgrade_reason h.latest) t.outdated_hosts;
      generated_at = now;
    }

-- `Evaluate`, on what the store answers.
unfoldable pub evaluate :
    ℕ → (Dict ℕ → Dict ℕ) → Result Text (List OpsRampAgent) → Result Text Report
unfolding report
evaluate now ranged (err e) = err e
evaluate now ranged (ok agents) = ok (report now ranged agents)
