-- ===== src/Opsramp/Calls/Checked.antt =====
-- internal/opsramp/connector.go: what a synchronisation and a reconfiguration leave where they fail.
use opsramp_agent_orchestrat.Prelude.{
  ◌≡◌, refl, Option, none, some, List, Text, Result, ok, err, arith,
}
use opsramp_agent_orchestrat.Store.World.{World}
use opsramp_agent_orchestrat.Opsramp.Connector.{Config, Connector, Resource, current_client}
use opsramp_agent_orchestrat.Opsramp.Calls.{
  Remote, CallError, synced, refreshed, sync_with, sync_client, sync_now,
}

module _ (net : Remote) where
  synced-err :
      (r : Result Text (List Resource)) (w : World) (e : CallError)
      → (synced net r w).0 ≡ err e
      → (synced net r w).1 ≡ w
  unfolding synced
  synced-err (err x) w e h = refl
  synced-err (ok rs) w e h = ground (arith, h)

  refreshed-err :
      (c : Config) (o : Option Text) (w : World) (e : CallError)
      → (refreshed net c o w).0 ≡ err e
      → (refreshed net c o w).1 ≡ w
  unfolding refreshed
  refreshed-err c (some x) w e h = refl
  refreshed-err c none w e h = synced-err (net.agent_resources c) w e h

  sync_client-err :
      (c : Option Config) (w : World) (e : CallError)
      → (sync_client net c w).0 ≡ err e
      → (sync_client net c w).1 ≡ w
  unfolding sync_client sync_with
  sync_client-err none w e h = refl
  sync_client-err (some c) w e h = refreshed-err c (net.ensure_token c) w e h

  -- A synchronisation that fails has written nothing.
  pub sync_now-err :
      (c : Connector) (w : World) (e : CallError)
      → (sync_now net c w).0 ≡ err e
      → (sync_now net c w).1 ≡ w
  unfolding sync_now
  sync_now-err c w e h = sync_client-err (current_client c) w e h
