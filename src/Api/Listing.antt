-- ===== src/Api/Listing.antt =====
-- internal/api/agents.go: the status of a listed agent against the live connections.
use opsramp_agent_orchestrat.Prelude.{
  ◌≡◌, ◌↔◌, refl, ap, true, List, [], ◌∷◌, All, length, Text, text_eq, text_eq_iff, Result, ok, map,
  inl, inr, Bool-cases, arith,
}
use opsramp_agent_orchestrat.Model.{Agent}
use opsramp_agent_orchestrat.Store.World.{Error, Db, World, sort_desc}
use opsramp_agent_orchestrat.Store.Steps.{IsReliable, read-IsReliable}
use opsramp_agent_orchestrat.Store.Agents.{connected, disconnected, list_agents}
use opsramp_agent_orchestrat.Opamp.Registry.{connected_uids}
use opsramp_agent_orchestrat.Opamp.Messages.{resolved}
use opsramp_agent_orchestrat.Opamp.Push.{is_member}
use opsramp_agent_orchestrat.Api.Http.{agents_listed, State, Site, stored}
use opsramp_agent_orchestrat.Api.Agents.{corrected, shown_agents, list_shown, handle_list_agents}

-- Connected just where there is a connection of the UID.
abbrev pub IsTrue : List Text → Agent → Type 0
IsTrue up a = (a.status ≡ connected) ↔ (is_member a.instance_uid up ≡ true)

corrected-IsTrue : (up : List Text) (a : Agent) → IsTrue up (corrected up a)
unfolding corrected
corrected-IsTrue up a = elim (Bool-cases (is_member a.instance_uid up)) [
  | inl e ↦ rw e (λ h. e, λ h. refl)
  | inr e ↦ elim (Bool-cases (text_eq a.status connected)) [
    | inl f ↦ rw (e, f) (λ h. absurd (other h), λ h. ground (arith, e, h))
    | inr f ↦
        rw (e, f)
          (λ h. ground (arith, f, text_eq_iff a.status connected, h), λ h. ground (arith, e, h))
  ]
]
  where
    other : disconnected ≡ connected → ⊥
    other h = ground (arith, ap (λ (t : Text). length t) h)

shown_agents-IsTrue :
    (default : Text) (up : List Text) (agents : List Agent) (w : World)
    → All (IsTrue up) (shown_agents default up agents w).0
unfolding shown_agents
shown_agents-IsTrue default up [] w = tt
shown_agents-IsTrue default up (a ∷ more) w =
    let one = resolved default a w in
    (corrected-IsTrue up one.0, shown_agents-IsTrue default up more one.1)

corrected-uid : (up : List Text) (a : Agent) → (corrected up a).instance_uid ≡ a.instance_uid
unfolding corrected
corrected-uid up a = ground arith

abbrev pub uid_of_row : Agent → Text
uid_of_row a = a.instance_uid

shown_agents-uids :
    (default : Text) (up : List Text) (agents : List Agent) (w : World)
    → map uid_of_row (shown_agents default up agents w).0 ≡ map uid_of_row agents
unfolding shown_agents resolved
shown_agents-uids default up [] w = refl
shown_agents-uids default up (a ∷ more) w =
    let one = resolved default a w in
    λ i. corrected-uid up one.0 i ∷ shown_agents-uids default up more one.1 i

abbrev pub by_last_seen : Db → List Agent
by_last_seen db = sort_desc (λ (a : Agent). a.last_seen) db.agents

-- While the database answers, the listing has every agent row, the last seen first, with their number,
-- and an agent is shown as connected just where one of the live connections is its UID's.
pub handle_list_agents-IsTrue :
    (s : Site) (st : State)
    → IsReliable st.world
    → (agents : List Agent) × ((handle_list_agents s st).0
        ≡ record { status = 200; payload = agents_listed agents (length agents) })
      × (map uid_of_row agents ≡ map uid_of_row (by_last_seen st.world.db))
      × All (IsTrue (connected_uids st.registry)) agents
unfolding handle_list_agents list_shown list_agents
handle_list_agents-IsTrue s st r =
    let rows : List Agent = by_last_seen st.world.db in
    let up : List Text = connected_uids st.registry in
    (
      (shown_agents s.setup.default_group up rows st.world).0,
      ap (λ (p : Result Error (List Agent) × World). (stored s p (list_shown s) st).0)
          (read-IsReliable (λ db. ok (by_last_seen db)) st.world r),
      shown_agents-uids s.setup.default_group up rows st.world,
      shown_agents-IsTrue s.setup.default_group up rows st.world,
    )
