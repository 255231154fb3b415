-- ===== src/Opsramp/Connector/Settings.antt =====
-- internal/opsramp/connector.go: the connector's state over starts and reconfigurations.
use opsramp_agent_orchestrat.Prelude.{
  ◌≡◌, refl, ap, sym, ◌∙◌, Bool, true, false, ◌&&◌, Option, none, some, if◌then◌else◌, Text, Result,
  ok, err, arith, Bool-cases, inl, inr,
}
use opsramp_agent_orchestrat.Model.{OpsRampSettings, is_complete}
use opsramp_agent_orchestrat.Store.World.{Error, World, tick}
use opsramp_agent_orchestrat.Store.Steps.{IsReliable}
use opsramp_agent_orchestrat.Store.Sound.{save_opsramp_settings-IsSound}
use opsramp_agent_orchestrat.Store.Inventory.{get_opsramp_settings, save_opsramp_settings}
use opsramp_agent_orchestrat.Opsramp.Connector.{
  Config, Connector, new_client, apply, begin, seed, start, normalized, ConfigureError, saved,
  checked, reconfigure,
}

-- The connector is enabled just where its settings say so and are complete; then, and only then, there
-- is a client, made of them, and only then a poll loop runs.
pub record IsConsistent (c : Connector) : Type 0 where
  pub means : c.enabled ≡ (c.settings.enabled && is_complete c.settings)
  pub client_there : c.enabled ≡ true → c.client ≡ some (new_client c.settings)
  pub no_client : c.enabled ≡ false → c.client ≡ none
  pub no_polling : c.enabled ≡ false → c.polling ≡ none

pub apply-IsConsistent : (s : OpsRampSettings) (c : Connector) → IsConsistent (apply s c)
unfolding apply
apply-IsConsistent s c = elim (Bool-cases (s.enabled && is_complete s)) [
  | inl q ↦ rw q (record {
    means = sym q;
    client_there = λ e. refl;
    no_client = λ e. ground (arith, e);
    no_polling = λ e. ground (arith, e);
  })
  | inr q ↦ rw q (record {
    means = sym q;
    client_there = λ e. ground (arith, e);
    no_client = λ e. refl;
    no_polling = λ e. refl;
  })
]

either-IsConsistent :
    (b : Bool) (p q : Result Error (Unit {0}) × Connector × World)
    → IsConsistent p.1
    → IsConsistent q.1
    → IsConsistent (if b then p else q).1
either-IsConsistent true p q hp hq = hp
either-IsConsistent false p q hp hq = hq

begin-IsConsistent :
    (env : OpsRampSettings) (c : Connector) (p : Result Error (Option OpsRampSettings) × World)
    → IsConsistent c
    → IsConsistent (begin env c p).1
unfolding begin
begin-IsConsistent env c (err e, w) h = h
begin-IsConsistent env c (ok (some s), w) h = apply-IsConsistent s c
begin-IsConsistent env c (ok none, w) h =
    either-IsConsistent (is_complete env)
      (ok tt, apply (seed env) c, (save_opsramp_settings (seed env) w).1) (ok tt, c, w)
      (apply-IsConsistent (seed env) c) h

-- Starting leaves a consistent connector, whatever the database answers.
pub start-IsConsistent :
    (env : OpsRampSettings) (c : Connector) (w : World)
    → IsConsistent c
    → IsConsistent (start env c w).1
unfolding start
start-IsConsistent env c w h =
    begin-IsConsistent env (record c { started = true }) (get_opsramp_settings w)
      (record {
        means = h.means;
        client_there = h.client_there;
        no_client = h.no_client;
        no_polling = h.no_polling;
      })

saved-IsConsistent :
    (s : OpsRampSettings) (c : Connector) (p : Result Error (Unit {0}) × World)
    → IsConsistent c
    → IsConsistent (saved s c p).1
unfolding saved
saved-IsConsistent s c (err e, w) h = h
saved-IsConsistent s c (ok u, w) h = apply-IsConsistent s c

checked-IsConsistent :
    (s : OpsRampSettings) (c : Connector) (o : Option Text) (w : World)
    → IsConsistent c
    → IsConsistent (checked s c o w).1
unfolding checked
checked-IsConsistent s c none w h = saved-IsConsistent s c (save_opsramp_settings s w) h
checked-IsConsistent s c (some e) w h = h

-- Reconfiguring a consistent connector leaves a consistent one, however the check and the database
-- answer.
pub reconfigure-IsConsistent :
    (ping : Config → Option Text) (s : OpsRampSettings) (c : Connector) (w : World)
    → IsConsistent c
    → IsConsistent (reconfigure ping s c w).1
unfolding reconfigure
reconfigure-IsConsistent ping s c w h =
    checked-IsConsistent (normalized c.settings s) c
      (if (normalized c.settings s).enabled
        then ping (new_client (normalized c.settings s))
        else none)
      w h

saved-err :
    (s : OpsRampSettings) (c : Connector) (p : Result Error (Unit {0}) × World) (x : ConfigureError)
    → (saved s c p).0 ≡ err x
    → (saved s c p).1 ≡ c
unfolding saved
saved-err s c (err e, w) x h = refl
saved-err s c (ok u, w) x h = ground (arith, h)

checked-err :
    (s : OpsRampSettings) (c : Connector) (o : Option Text) (w : World) (x : ConfigureError)
    → (checked s c o w).0 ≡ err x
    → (checked s c o w).1 ≡ c
unfolding checked
checked-err s c none w x h = saved-err s c (save_opsramp_settings s w) x h
checked-err s c (some e) w x h = refl

-- A reconfiguration that fails, at the check of the credentials or at the database, leaves the running
-- connector as it was.
pub reconfigure-err :
    (ping : Config → Option Text) (s : OpsRampSettings) (c : Connector) (w : World)
    (x : ConfigureError)
    → (reconfigure ping s c w).0 ≡ err x
    → (reconfigure ping s c w).1 ≡ c
unfolding reconfigure
reconfigure-err ping s c w x h =
    checked-err (normalized c.settings s) c
      (if (normalized c.settings s).enabled
        then ping (new_client (normalized c.settings s))
        else none)
      w x h

saved-ok :
    (s : OpsRampSettings) (c : Connector) (w : World)
    → IsReliable w
    → saved s c (save_opsramp_settings s w) ≡ (ok tt, apply s c, (save_opsramp_settings s w).1)
unfolding saved save_opsramp_settings tick
saved-ok s c w r = rw r refl

passes : (b : Bool) (o : Option Text) → o ≡ none → (if b then o else none) ≡ none
passes true o h = h
passes false o h = refl

apply-settings : (s : OpsRampSettings) (c : Connector) → (apply s c).settings ≡ s
unfolding apply
apply-settings s c = elim (Bool-cases (s.enabled && is_complete s)) [
  | inl q ↦ rw q refl
  | inr q ↦ rw q refl
]

-- Where the check of the credentials finds nothing and the database answers, the new settings are in
-- force: the given ones, where a blank secret stands for the one from before.
pub reconfigure-ok :
    (ping : Config → Option Text) (s : OpsRampSettings) (c : Connector) (w : World)
    → IsReliable w
    → ping (new_client (normalized c.settings s)) ≡ none
    → ((reconfigure ping s c w).0 ≡ ok tt)
      × ((reconfigure ping s c w).1.settings ≡ normalized c.settings s)
unfolding reconfigure checked
reconfigure-ok ping s c w r good =
    let new : OpsRampSettings = normalized c.settings s in
    let done : reconfigure ping s c w ≡ (ok tt, apply new c, (save_opsramp_settings new w).1) =
      ap (λ o. checked new c o w) (passes new.enabled (ping (new_client new)) good)
      ∙ saved-ok new c w r in
    (ap (λ p. p.0) done, ap (λ p. p.1.settings) done ∙ apply-settings new c)

saved-err_db :
    (s : OpsRampSettings) (c : Connector) (p : Result Error (Unit {0}) × World) (w : World)
    (x : ConfigureError)
    → ((e : Error) → p.0 ≡ err e → p.1.db ≡ w.db)
    → (saved s c p).0 ≡ err x
    → (saved s c p).2.db ≡ w.db
unfolding saved
saved-err_db s c (ok u, v) w x sound h = ground (arith, h)
saved-err_db s c (err e, v) w x sound h = sound e refl

checked-err_db :
    (s : OpsRampSettings) (c : Connector) (o : Option Text) (w : World) (x : ConfigureError)
    → (checked s c o w).0 ≡ err x
    → (checked s c o w).2.db ≡ w.db
unfolding checked
checked-err_db s c (some e) w x h = refl
checked-err_db s c none w x h =
    saved-err_db s c (save_opsramp_settings s w) w x (save_opsramp_settings-IsSound s w) h

-- A reconfiguration that fails leaves the stored settings as they were.
pub reconfigure-err_db :
    (ping : Config → Option Text) (s : OpsRampSettings) (c : Connector) (w : World)
    (x : ConfigureError)
    → (reconfigure ping s c w).0 ≡ err x
    → (reconfigure ping s c w).2.db ≡ w.db
unfolding reconfigure
reconfigure-err_db ping s c w x h =
    checked-err_db (normalized c.settings s) c
      (if (normalized c.settings s).enabled
        then ping (new_client (normalized c.settings s))
        else none)
      w x h
