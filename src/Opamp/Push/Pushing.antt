-- ===== src/Opamp/Push/Pushing.antt =====
-- internal/opampserver/push.go and reconcile.go: choosing a group, making an offer and pushing it, reading by
-- reading.
use opsramp_agent_orchestrat.Prelude.{
  ℕ, ◌≡◌, refl, ap, ◌∙◌, inl, inr, Bool, true, false, Option, none, some, List, [], ◌∷◌, Text,
  text_eq, is_empty, Result, ok, err, Bool-cases,
}
use opsramp_agent_orchestrat.Prelude.Sorting.{sort_by}
use opsramp_agent_orchestrat.Model.{Agent, Group, ConfigVersion, Package}
use opsramp_agent_orchestrat.Store.World.{Error, Db, World, read, find, require, sort_desc}
use opsramp_agent_orchestrat.Store.Steps.{read-db, IsReliable, read-IsReliable}
use opsramp_agent_orchestrat.Store.Agents.{has_uid, get_agent, list_agents}
use opsramp_agent_orchestrat.Store.Groups.{list_groups, get_current_config, current_config}
use opsramp_agent_orchestrat.Store.Packages.{list_group_packages, group_packages}
use opsramp_agent_orchestrat.Opamp.Hex.{hex_decode}
use opsramp_agent_orchestrat.Opamp.Registry.{Conn, Registry, conn_for, connected_uids}
use opsramp_agent_orchestrat.Opamp.Resolve.{among, assigned, resolve_group}
use opsramp_agent_orchestrat.Opamp.Offers.{
  ServerToAgent, Offering, has_capability, accepts_remote_config, accepts_packages, desired_config,
  desired_packages, build_offer_for_push,
}
use opsramp_agent_orchestrat.Opamp.Messages.{Setup, resolved}
use opsramp_agent_orchestrat.Opamp.Push.{
  push_bytes, push_loaded, push_conn, push_to_agent, counts, is_member, push_agents, push_listed,
  push_group,
}

-- A relation between the worlds behind and before that reading keeps.
module _ (R : World → World → Type 0) (same : (w : World) → R w w)
    (after : (u v w : World) → R u v → R v w → R u w)
    (reading : (A : Type 0) (f : Db → Result Error A) (w : World) → R (read f w).1 w) where
  among-R :
      (default : Text) (a : Agent) (p : Result Error (List Group) × World)
      → R (among default a p).1 p.1
  unfolding among
  among-R default a (ok gs, w) = same w
  among-R default a (err e, w) = same w

  resolved-R : (default : Text) (a : Agent) (w : World) → R (resolved default a w).1 w
  unfolding resolved resolve_group list_groups
  resolved-R default a w = elim (Bool-cases (is_empty (assigned a.assigned_group))) [
    | inl e ↦ rw e (
        after (among default a (list_groups w)).1 (list_groups w).1 w
          (among-R default a (list_groups w))
          (reading (List Group) (λ db. ok (sort_by (λ (g : Group). g.name) db.groups)) w))
    | inr e ↦ rw e (same w)
  ]

  desired_config-R : (a : Agent) (w : World) → R (desired_config a w).1 w
  unfolding desired_config get_current_config
  desired_config-R a w = elim (Bool-cases (has_capability a.capabilities accepts_remote_config)) [
    | inl e ↦ rw e (reading ConfigVersion (current_config a.resolved_group) w)
    | inr e ↦ rw e (same w)
  ]

  desired_packages-R : (o : Offering) (a : Agent) (w : World) → R (desired_packages o a w).1 w
  unfolding desired_packages list_group_packages
  desired_packages-R o a w = elim (Bool-cases (has_capability a.capabilities accepts_packages)) [
    | inl e ↦ rw e (reading (List Package) (group_packages a.resolved_group) w)
    | inr e ↦ rw e (same w)
  ]

  build_offer_for_push-R :
      (o : Offering) (a : Agent) (uid : List ℕ) (w : World) → R (build_offer_for_push o a uid w).1 w
  unfolding build_offer_for_push
  build_offer_for_push-R o a uid w =
      let config : World = (desired_config a w).1 in
      after (desired_packages o a config).1 config w (desired_packages-R o a config)
        (desired_config-R a w)

  module _ (s : Setup) (send : Conn → ServerToAgent → Bool) where
    push_bytes-R :
        (c : Conn) (a : Agent) (p : List ℕ × Bool) (w : World) → R (push_bytes s send c a p w).1 w
    unfolding push_bytes
    push_bytes-R c a (bytes, false) w = same w
    push_bytes-R c a (bytes, true) w = build_offer_for_push-R s.offering a bytes w

    push_loaded-R :
        (c : Conn) (uid : Text) (p : Result Error Agent × World)
        → R (push_loaded s send c uid p).1 p.1
    unfolding push_loaded
    push_loaded-R c uid (err e, w) = same w
    push_loaded-R c uid (ok a, w) =
        let one = resolved s.default_group a w in
        after (push_bytes s send c one.0 (hex_decode uid) one.1).1 one.1 w
          (push_bytes-R c one.0 (hex_decode uid) one.1) (resolved-R s.default_group a w)

    push_conn-R : (c : Option Conn) (uid : Text) (w : World) → R (push_conn s send c uid w).1 w
    unfolding push_conn get_agent
    push_conn-R none uid w = same w
    push_conn-R (some c) uid w =
        after (push_loaded s send c uid (get_agent uid w)).1 (get_agent uid w).1 w
          (push_loaded-R c uid (get_agent uid w))
          (reading Agent (λ db. require (find (has_uid uid) db.agents)) w)

    push_to_agent-R : (r : Registry) (uid : Text) (w : World) → R (push_to_agent s send r uid w).1 w
    unfolding push_to_agent
    push_to_agent-R r uid w = push_conn-R (conn_for r uid) uid w

    push_agents-R :
        (r : Registry) (up : List Text) (group : Text) (agents : List Agent) (w : World)
        → R (push_agents s send r up group agents w).1 w
    unfolding push_agents
    push_agents-R r up group [] w = same w
    push_agents-R r up group (a ∷ agents) w =
        let v : World = (resolved s.default_group a w).1 in
        let u : World = (push_to_agent s send r a.instance_uid v).1 in
        let one = resolved-R s.default_group a w in
        let both = after u v w (push_to_agent-R r a.instance_uid v) one in
        let pushed =
          after (push_agents s send r up group agents u).1 u w (push_agents-R r up group agents u)
            both in
        elim (Bool-cases (is_member a.instance_uid up)) [
          | inr e ↦ rw e (push_agents-R r up group agents w)
          | inl e ↦
              elim (Bool-cases (text_eq (resolved s.default_group a w).0.resolved_group group)) [
                | inr f ↦
                    rw (e, f)
                      (after (push_agents s send r up group agents v).1 v w
                        (push_agents-R r up group agents v) one)
                | inl f ↦ elim (Bool-cases (counts (push_to_agent s send r a.instance_uid v).0)) [
                  | inl g ↦ rw (e, f, g) pushed
                  | inr g ↦ rw (e, f, g) pushed
                ]
              ]
        ]

    push_listed-R :
        (r : Registry) (group : Text) (p : Result Error (List Agent) × World)
        → R (push_listed s send r group p).1 p.1
    unfolding push_listed
    push_listed-R r group (err e, w) = same w
    push_listed-R r group (ok agents, w) = push_agents-R r (connected_uids r) group agents w

    push_group-R : (r : Registry) (group : Text) (w : World) → R (push_group s send r group w).1 w
    unfolding push_group list_agents
    push_group-R r group w =
        after (push_listed s send r group (list_agents w)).1 (list_agents w).1 w
          (push_listed-R r group (list_agents w))
          (reading (List Agent) (λ db. ok (sort_desc (λ (a : Agent). a.last_seen) db.agents)) w)

-- The database is the same.
abbrev SameDb : World → World → Type 0
SameDb v w = v.db ≡ w.db

after-SameDb : (u v w : World) → SameDb u v → SameDb v w → SameDb u w
after-SameDb u v w p q = p ∙ q

reading-SameDb : (A : Type 0) (f : Db → Result Error A) (w : World) → SameDb (read f w).1 w
reading-SameDb A f w = read-db f w

pub resolved-db : (default : Text) (a : Agent) (w : World) → (resolved default a w).1.db ≡ w.db
resolved-db = resolved-R SameDb (λ w. refl) after-SameDb reading-SameDb

-- Where no statement fails, the world is the same.
abbrev IsKept : World → World → Type 0
IsKept v w = IsReliable w → v ≡ w

after-IsKept : (u v w : World) → IsKept u v → IsKept v w → IsKept u w
after-IsKept u v w p q r = p (ap (λ (x : World). x.faults) (q r) ∙ r) ∙ q r

reading-IsKept : (A : Type 0) (f : Db → Result Error A) (w : World) → IsKept (read f w).1 w
reading-IsKept A f w r = ap (λ p. p.1) (read-IsReliable f w r)

module _ (s : Setup) (send : Conn → ServerToAgent → Bool) (r : Registry) where
  pub push_to_agent-db : (uid : Text) (w : World) → (push_to_agent s send r uid w).1.db ≡ w.db
  push_to_agent-db = push_to_agent-R SameDb (λ w. refl) after-SameDb reading-SameDb s send r

  pub push_group-IsReliable :
      (group : Text) (w : World) → IsReliable w → (push_group s send r group w).1 ≡ w
  push_group-IsReliable = push_group-R IsKept (λ w q. refl) after-IsKept reading-IsKept s send r

  pub push_to_agent-IsReliable :
      (uid : Text) (w : World) → IsReliable w → (push_to_agent s send r uid w).1 ≡ w
  push_to_agent-IsReliable =
      push_to_agent-R IsKept (λ w q. refl) after-IsKept reading-IsKept s send r
