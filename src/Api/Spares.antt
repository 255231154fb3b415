-- ===== src/Api/Spares.antt =====
-- internal/api: handlers and actions that leave the database as it was, and those that do so where they
-- answer with an error.
use opsramp_agent_orchestrat.Prelude.{◌≤◌, ◌<◌, ◌≡◌, refl, ◌∙◌, Text, Result, ok, err, arith}
use opsramp_agent_orchestrat.Store.World.{
  Error, not_found, constraint, fault, refused, World, Action,
}
use opsramp_agent_orchestrat.Store.Sound.{Reads, IsSound}
use opsramp_agent_orchestrat.Api.Http.{
  State, Site, Handler, map_store_err, with_world, stored, call, with_body,
}

-- A handler that writes nothing, one that never answers with an error, and one that writes nothing
-- where it does.
abbrev pub Spares : Handler → Type 0
Spares h = (st : State) → (h st).1.world.db ≡ st.world.db

abbrev pub Succeeds : Handler → Type 0
Succeeds h = (st : State) → (h st).0.status < 400

abbrev pub IsAtomic : Handler → Type 0
IsAtomic h = (st : State) → 400 ≤ (h st).0.status → (h st).1.world.db ≡ st.world.db

pub map_store_err-Spares : (s : Site) (e : Error) → Spares (map_store_err s e)
unfolding map_store_err
map_store_err-Spares s not_found st = refl
map_store_err-Spares s constraint st = refl
map_store_err-Spares s fault st = refl
map_store_err-Spares s (refused t) st = refl

pub Spares-IsAtomic : (h : Handler) → Spares h → IsAtomic h
Spares-IsAtomic h p st q = p st

pub Succeeds-IsAtomic : (h : Handler) → Succeeds h → IsAtomic h
Succeeds-IsAtomic h p st q = absurd (omega (arith, q, p st))

module _ {A : Type 0} (s : Site) (m : Action A) (k : A → Handler) where
  stored-Spares :
      (p : Result Error A × World) (st : State)
      → p.1.db ≡ st.world.db
      → ((a : A) → Spares (k a))
      → (stored s p k st).1.world.db ≡ st.world.db
  stored-Spares (ok a, w) st h q = q a (with_world st w) ∙ h
  stored-Spares (err e, w) st h q = map_store_err-Spares s e (with_world st w) ∙ h

  pub call-Spares : Reads m → ((a : A) → Spares (k a)) → Spares (call s m k)
  call-Spares r q st = stored-Spares (m st.world) st (r st.world) q

  stored-IsAtomic_reads :
      (p : Result Error A × World) (st : State)
      → p.1.db ≡ st.world.db
      → ((a : A) → IsAtomic (k a))
      → 400 ≤ (stored s p k st).0.status
      → (stored s p k st).1.world.db ≡ st.world.db
  stored-IsAtomic_reads (ok a, w) st h q e = q a (with_world st w) e ∙ h
  stored-IsAtomic_reads (err f, w) st h q e = map_store_err-Spares s f (with_world st w) ∙ h

  -- A call that reads, in front of what is atomic.
  pub call-IsAtomic-Reads : Reads m → ((a : A) → IsAtomic (k a)) → IsAtomic (call s m k)
  call-IsAtomic-Reads r q st e = stored-IsAtomic_reads (m st.world) st (r st.world) q e

  stored-IsAtomic :
      (p : Result Error A × World) (st : State)
      → ((e : Error) → p.0 ≡ err e → p.1.db ≡ st.world.db)
      → ((a : A) → Succeeds (k a))
      → 400 ≤ (stored s p k st).0.status
      → (stored s p k st).1.world.db ≡ st.world.db
  stored-IsAtomic (ok a, w) st h q e = absurd (omega (arith, e, q a (with_world st w)))
  stored-IsAtomic (err f, w) st h q e = map_store_err-Spares s f (with_world st w) ∙ h f refl

  -- A call that writes, in front of what cannot fail any more.
  pub call-IsAtomic : IsSound m → ((a : A) → Succeeds (k a)) → IsAtomic (call s m k)
  call-IsAtomic r q st e = stored-IsAtomic (m st.world) st (r st.world) q e

pub with_body-Spares :
    {A : Type 0} (b : Result Text A) (k : A → Handler)
    → ((a : A) → Spares (k a))
    → Spares (with_body b k)
with_body-Spares (ok a) k q = q a
with_body-Spares (err e) k q = λ st. refl

pub with_body-IsAtomic :
    {A : Type 0} (b : Result Text A) (k : A → Handler)
    → ((a : A) → IsAtomic (k a))
    → IsAtomic (with_body b k)
with_body-IsAtomic (ok a) k q = q a
with_body-IsAtomic (err e) k q = λ st h. refl
