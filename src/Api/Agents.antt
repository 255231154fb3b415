-- ===== src/Api/Agents.antt =====
-- internal/api/agents.go: agents, their group, pushes and events.
use opsramp_agent_orchestrat.Prelude.{
  Bool, true, false, not, Option, none, some, List, [], ◌∷◌, length, if◌then◌else◌, Text, codes,
  text_eq, is_empty, Result, ok, err,
}
use opsramp_agent_orchestrat.Model.{Agent}
use opsramp_agent_orchestrat.Store.Agents.{
  connected, disconnected, get_agent, list_agents, set_agent_group, add_event, list_events,
}
use opsramp_agent_orchestrat.Store.Groups.{get_group}
use opsramp_agent_orchestrat.Opamp.Registry.{connected_uids}
use opsramp_agent_orchestrat.Opamp.Resolve.{Effect}
use opsramp_agent_orchestrat.Opamp.Messages.{logged, resolved}
use opsramp_agent_orchestrat.Opamp.Push.{
  PushError, not_connected, bad_uid, send_failed, store_error, is_member, push_to_agent,
}
use opsramp_agent_orchestrat.Api.Http.{
  Request, agents_listed, one_agent, group_assigned, push_result, events_listed, Site, Handler,
  write_json, write_err, map_store_err, with_world, call, with_body, effect,
}

-- The status by the live connections.
unfoldable pub corrected : List Text → Agent → Agent
unfolding is_member
corrected up a =
    if is_member a.instance_uid up
    then record a { status = connected }
    else if text_eq a.status connected
    then record a { status = disconnected }
    else a

unfoldable pub shown_agents : Text → List Text → List Agent → Effect (List Agent)
unfolding resolved corrected
shown_agents default up [] w = ([], w)
shown_agents default up (a ∷ more) w =
    let one = resolved default a w in
    let rest = shown_agents default up more one.1 in (corrected up one.0 ∷ rest.0, rest.1)

unfoldable pub list_shown : Site → List Agent → Handler
unfolding shown_agents connected_uids
list_shown s agents st =
    let out = shown_agents s.setup.default_group (connected_uids st.registry) agents st.world in
    write_json 200 (agents_listed out.0 (length out.0)) (with_world st out.1)

unfoldable pub handle_list_agents : Site → Handler
unfolding list_shown list_agents
handle_list_agents s = call s list_agents (list_shown s)

-- A row that says connected without a connection is shown as it is.
unfoldable pub show_agent : Site → Text → Agent → Handler
unfolding resolved is_member connected_uids
show_agent s uid agent st =
    let one = resolved s.setup.default_group agent st.world in
    write_json 200
      (one_agent (
        if is_member uid (connected_uids st.registry)
        then record one.0 { status = connected }
        else one.0))
      (with_world st one.1)

unfoldable pub handle_get_agent : Site → Text → Handler
unfolding show_agent get_agent
handle_get_agent s uid = call s (get_agent uid) (show_agent s uid)

unfoldable pub group_label : Option Text → Text
group_label none = codes "(auto)"
group_label (some g) = if is_empty g then codes "(auto)" else g

unfoldable pub landed : Result PushError (Unit {0}) → Bool
landed (ok u) = true
landed (err e) = false

-- `tryPush`, and the answer with what it gives.
unfoldable pub try_push : Site → Text → Handler
unfolding landed push_to_agent
try_push s uid st =
    let out = push_to_agent s.setup s.send st.registry uid st.world in
    write_json 200 (group_assigned (landed out.0)) (with_world st out.1)

unfoldable pub assign_group : Site → Text → Option Text → Handler
unfolding try_push set_agent_group add_event group_label
assign_group s uid group = call s (set_agent_group uid group) λ _.
    effect (logged (add_event uid (codes "group-assigned") (group_label group))) (try_push s uid)

-- A group that is named must be there.
unfoldable pub with_group : Site → Option Text → Handler → Handler
unfolding get_group
with_group s none k = k
with_group s (some g) k = if not (is_empty g) then call s (get_group g) (λ _. k) else k

unfoldable pub handle_set_agent_group : Site → Text → Request → Handler
unfolding assign_group with_group get_agent
handle_set_agent_group s uid r =
    with_body (s.bodies.group_of r.body)
      λ group. call s (get_agent uid) (λ _. with_group s group (assign_group s uid group))

unfoldable pub pushed : Site → Result PushError (Unit {0}) → Handler
unfolding map_store_err
pushed s (ok u) = write_json 200 (push_result true [])
pushed s (err not_connected) =
    write_json 200 (push_result false (codes "agent not connected; will reconcile on next poll"))
pushed s (err (store_error e)) = map_store_err s e
pushed s (err bad_uid) = write_err 500 (s.push_error_text bad_uid)
pushed s (err send_failed) = write_err 500 (s.push_error_text send_failed)

unfoldable pub handle_push_agent : Site → Text → Handler
unfolding pushed push_to_agent
handle_push_agent s uid st =
    let out = push_to_agent s.setup s.send st.registry uid st.world in
    pushed s out.0 (with_world st out.1)

unfoldable pub handle_list_events : Site → Handler
unfolding list_events
handle_list_events s = call s (list_events 200) (λ events. write_json 200 (events_listed events))
