-- ===== src/Reconcile/Fleet.antt =====
-- What the fleet report says of the inventory.
use opsramp_agent_orchestrat.Prelude.{
  ℕ, ◌+◌, ◌≡◌, ◌≢◌, refl, ◌∙◌, ◌⊎◌, inl, inr, Bool, true, false, not, ◌&&◌, List, [], ◌∷◌, ◌++◌,
  arith, length, if◌then◌else◌, Text, text_eq, text_eq_iff, sym, is_empty, select, codes,
  Bool-cases,
}
use mathlib.Core.List.{append_assoc, append-nil}
use opsramp_agent_orchestrat.Prelude.Dicts.{Dict}
use opsramp_agent_orchestrat.Model.{OpsRampAgent}
use opsramp_agent_orchestrat.Reconcile.Versions.{plus, compare_version}
use opsramp_agent_orchestrat.Reconcile.Versions.Order.{
  compare_version-IsOrder, compare_version_self,
}
use opsramp_agent_orchestrat.Reconcile.Status.{down, classify}
use opsramp_agent_orchestrat.Reconcile.{
  HostRef, Recommendation, ref, join_ips, unknown_version, version_of, Histogram, count_agent,
  histogram_from, histogram, Tally, is_outdated, is_plus, tally_agent, tally_from, tally, recommend,
  repair_reason, upgrade_reason, report,
}

tally_agent-total :
    (latest : Text) (t : Tally) (a : OpsRampAgent)
    → let u = tally_agent latest t a in
      u.active + u.down_count + u.unknown_count ≡ t.active + t.down_count + t.unknown_count + 1
unfolding tally_agent
tally_agent-total latest t a = ground arith

tally_from-total :
    (latest : Text) (t : Tally) (agents : List OpsRampAgent)
    → let u = tally_from latest t agents in
      u.active + u.down_count + u.unknown_count
      ≡ t.active + t.down_count + t.unknown_count + length agents
unfolding tally_from
tally_from-total latest t [] = omega arith
tally_from-total latest t (a ∷ agents) =
    omega
      (arith, tally_agent-total latest t a, tally_from-total latest (tally_agent latest t a) agents)

-- Every agent of the inventory is counted once: as active, as down, or as unknown.
pub report-total :
    (now : ℕ) (ranged : Dict ℕ → Dict ℕ) (agents : List OpsRampAgent)
    → let r = report now ranged agents in
      (r.total ≡ length agents) × (r.active + r.down_count + r.unknown_count ≡ r.total)
unfolding report tally
report-total now ranged agents =
    (refl, omega (arith, tally_from-total (histogram agents).latest _ agents))

-- `v` is not newer than `w`.
abbrev IsAtMost : Text → Text → Type 0
IsAtMost v w = compare_version v w ≢ plus

count_agent-latest :
    (h : Histogram) (a : OpsRampAgent)
    → IsAtMost h.latest (count_agent h a).latest
      × (version_of a ≢ unknown_version → IsAtMost (version_of a) (count_agent h a).latest)
unfolding count_agent
count_agent-latest h a =
    let v = version_of a in
    let fact = (compare_version-IsOrder h.latest v h.latest).0 in
    (
      ground (arith, fact, compare_version_self h.latest),
      λ known. ground (arith, fact, compare_version_self v, text_eq_iff v unknown_version),
    )

count_agent-cases :
    (h : Histogram) (a : OpsRampAgent)
    → ((count_agent h a).latest ≡ h.latest) ⊎ ((count_agent h a).latest ≡ version_of a)
unfolding count_agent
count_agent-cases h a =
    elim (Bool-cases (
      not (text_eq (version_of a) unknown_version)
      && is_plus (compare_version (version_of a) h.latest))) [
        | inl newer ↦ inr (rw newer)
        | inr older ↦ inl (rw older)
      ]

histogram_from-latest :
    (h : Histogram) (agents : List OpsRampAgent)
    → IsAtMost h.latest (histogram_from h agents).latest
unfolding histogram_from
histogram_from-latest h [] = rw (compare_version_self h.latest) (ground arith)
histogram_from-latest h (a ∷ agents) =
    (compare_version-IsOrder h.latest (count_agent h a).latest
        (histogram_from h (a ∷ agents)).latest).1
      (count_agent-latest h a).0 (histogram_from-latest (count_agent h a) agents)

abbrev pub AllAtMost : Text → List OpsRampAgent → Type 0
AllAtMost latest [] = Unit
AllAtMost latest (a ∷ agents) =
    (version_of a ≢ unknown_version → IsAtMost (version_of a) latest) × AllAtMost latest agents

histogram_from-AllAtMost :
    (h : Histogram) (agents : List OpsRampAgent) → AllAtMost (histogram_from h agents).latest agents
unfolding histogram_from
histogram_from-AllAtMost h [] = tt
histogram_from-AllAtMost h (a ∷ agents) = (
  λ known.
      (compare_version-IsOrder (version_of a) (count_agent h a).latest
          (histogram_from (count_agent h a) agents).latest).1
        ((count_agent-latest h a).1 known) (histogram_from-latest (count_agent h a) agents),
  histogram_from-AllAtMost (count_agent h a) agents,
)

-- Some agent of the inventory is counted under this version.
abbrev pub Runs : Text → List OpsRampAgent → Type 0
Runs v [] = ⊥
Runs v (a ∷ agents) = (version_of a ≡ v) ⊎ Runs v agents

histogram_from-Runs :
    (h : Histogram) (agents : List OpsRampAgent)
    → ((histogram_from h agents).latest ≡ h.latest) ⊎ Runs (histogram_from h agents).latest agents
unfolding histogram_from
histogram_from-Runs h [] = inl refl
histogram_from-Runs h (a ∷ agents) = elim (histogram_from-Runs (count_agent h a) agents) [
  | inr later ↦ inr (inr later)
  | inl same ↦ elim (count_agent-cases h a) [
    | inl old ↦ inl (same ∙ old)
    | inr new ↦ inr (inl (sym (same ∙ new)))
  ]
]

-- The version reported as the newest is one that some agent runs, or empty, and no known version in
-- the fleet is newer.
pub report-latest_version :
    (now : ℕ) (ranged : Dict ℕ → Dict ℕ) (agents : List OpsRampAgent)
    → let latest = (report now ranged agents).latest_version in
      ((latest ≡ []) ⊎ Runs latest agents) × AllAtMost latest agents
unfolding report histogram
report-latest_version now ranged agents = (
  histogram_from-Runs (record { counts = []; latest = [] }) agents,
  histogram_from-AllAtMost (record { counts = []; latest = [] }) agents,
)

map_ref : List OpsRampAgent → List HostRef
map_ref [] = []
map_ref (a ∷ agents) = ref a ∷ map_ref agents

-- The hosts of the agents that pass a test and have an address, in the order of the inventory.
unfoldable pub targets : (OpsRampAgent → Bool) → List OpsRampAgent → List HostRef
unfolding map_ref
targets p agents = map_ref (select (λ a. p a && not (is_empty a.ip_address)) agents)

unfoldable pub is_down : OpsRampAgent → Bool
is_down a = elim (classify a.agent_status) [ down ↦ true | _ ↦ false ]

tally_agent-hosts :
    (latest : Text) (t : Tally) (a : OpsRampAgent)
    → ((tally_agent latest t a).down_hosts
        ≡ t.down_hosts ++ (if is_down a && not (is_empty a.ip_address) then ref a ∷ [] else []))
      × ((tally_agent latest t a).outdated_hosts
          ≡ t.outdated_hosts
            ++ (if is_outdated latest a && not (is_empty a.ip_address) then ref a ∷ [] else []))
unfolding tally_agent is_down
tally_agent-hosts latest t a = ground (arith, append-nil t.down_hosts, append-nil t.outdated_hosts)

-- One more agent at the end of the hosts so far is one more at the head of the rest.
targets-cons :
    (hs : List HostRef) (p : OpsRampAgent → Bool) (a : OpsRampAgent) (agents : List OpsRampAgent)
    → (hs ++ (if p a && not (is_empty a.ip_address) then ref a ∷ [] else [])) ++ targets p agents
      ≡ hs ++ targets p (a ∷ agents)
unfolding targets select
targets-cons hs p a agents = elim (Bool-cases (p a && not (is_empty a.ip_address))) [
  | inl target ↦ rw (target, append_assoc)
  | inr other ↦ rw (other, append-nil)
]

abbrev no_tally : Tally
no_tally = record {
  active = 0;
  down_count = 0;
  unknown_count = 0;
  outdated = 0;
  down_hosts = [];
  outdated_hosts = [];
}

tally_from-hosts :
    (latest : Text) (t : Tally) (agents : List OpsRampAgent)
    → ((tally_from latest t agents).down_hosts ≡ t.down_hosts ++ targets is_down agents)
      × ((tally_from latest t agents).outdated_hosts
          ≡ t.outdated_hosts ++ targets (is_outdated latest) agents)
unfolding tally_from targets select
tally_from-hosts latest t [] = (rw append-nil, rw append-nil)
tally_from-hosts latest t (a ∷ agents) =
    let (ih_down, ih_old) = tally_from-hosts latest (tally_agent latest t a) agents in
    let (h_down, h_old) = tally_agent-hosts latest t a in
    (
      ih_down ∙ rw h_down (targets-cons t.down_hosts is_down a agents),
      ih_old ∙ rw h_old (targets-cons t.outdated_hosts (is_outdated latest) a agents),
    )

-- A recommendation stands for a list of hosts exactly when that list is not empty.
abbrev pub recommended : Text → Text → List HostRef → List Recommendation
recommended kind reason [] = []
recommended kind reason (h ∷ hs) =
    record {
      kind = kind;
      action = kind;
      reason = reason;
      target_spec = join_ips (h ∷ hs);
      hosts = h ∷ hs;
    }
    ∷ []

recommend_lem :
    (kind reason : Text) (hs : List HostRef) → recommend kind reason hs ≡ recommended kind reason hs
unfolding report
recommend_lem kind reason [] = refl
recommend_lem kind reason (h ∷ hs) = refl

-- The report recommends a repair of exactly the agents that are down, and an upgrade of exactly the
-- agents behind the newest version; each is left out where no such agent has an address, and an agent
-- without an address is never a target.
pub report-recommendations :
    (now : ℕ) (ranged : Dict ℕ → Dict ℕ) (agents : List OpsRampAgent)
    → let r = report now ranged agents in
      r.recommendations
      ≡ recommended (codes "repair") repair_reason (targets is_down agents)
        ++ recommended
            (codes "upgrade")
            (upgrade_reason r.latest_version)
            (targets (is_outdated r.latest_version) agents)
unfolding report tally
report-recommendations now ranged agents =
    let latest = (histogram agents).latest in
    let (down_hosts, old_hosts) = tally_from-hosts latest no_tally agents in
    rw (recommend_lem, recommend_lem, down_hosts, old_hosts)
