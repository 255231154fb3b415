-- ===== src/Api/Served.antt =====
-- internal/api/api.go: what every request leaves of the database, whatever route it takes.
use opsramp_agent_orchestrat.Prelude.{
  ◌≡◌, ◌≢◌, ◌≤◌, ◌⊎◌, refl, inl, inr, true, false, Option, none, some, List, [], ◌∷◌, All, Text,
  codes, text_eq_iff, is_empty, trim_space, trim_prefix, Bool-cases, arith,
}
use opsramp_agent_orchestrat.Api.Http.{
  Method, get_method, head_method, post_method, put_method, delete_method, other_method, Request,
  State, Site, Handler, is_safe, admits,
}
use opsramp_agent_orchestrat.Api.Spares.{Spares, IsAtomic}
use opsramp_agent_orchestrat.Api.Routes.{
  Target, plain, with_value, with_values, Entry, bound, allows, path_match, entry_handler, ui_at,
  handle_ui, routes, fall_through, choose, serve, matched,
}
use opsramp_agent_orchestrat.Api.Proper.{Obeys, IsProper, routes-IsProper}

-- What holds of the handler that was found, if there is one.
abbrev Found : (Handler → Type 0) → Request → Option (Request → Handler) → Type 0
Found P r none = Unit
Found P r (some h) = P (h r)

bound-Found :
    (P : Handler → Type 0) (t : Target) (vs : List Text) (r : Request)
    → Obeys P t
    → Found P r (bound t vs)
unfolding bound
bound-Found P (plain h) [] r o = o r
bound-Found P (plain h) (v ∷ vs) r o = tt
bound-Found P (with_value h) [] r o = tt
bound-Found P (with_value h) (v ∷ []) r o = o v r
bound-Found P (with_value h) (v ∷ u ∷ vs) r o = tt
bound-Found P (with_values h) [] r o = tt
bound-Found P (with_values h) (v ∷ []) r o = tt
bound-Found P (with_values h) (v ∷ u ∷ []) r o = o v u r
bound-Found P (with_values h) (v ∷ u ∷ t ∷ vs) r o = tt

matched-Found :
    (P : Handler → Type 0) (t : Target) (o : Option (List Text)) (r : Request)
    → Obeys P t
    → Found P r (matched t o)
unfolding matched
matched-Found P t none r q = tt
matched-Found P t (some vs) r q = bound-Found P t vs r q

-- A method that is not safe is not the one of a safe request.
allows-is_safe : (m n : Method) → is_safe m ≡ false → allows m n ≡ true → is_safe n ≡ false
unfolding is_safe allows
allows-is_safe get_method n p q = ground (arith, p)
allows-is_safe head_method n p q = ground (arith, p)
allows-is_safe post_method get_method p q = ground (arith, q)
allows-is_safe post_method head_method p q = ground (arith, q)
allows-is_safe put_method get_method p q = ground (arith, q)
allows-is_safe put_method head_method p q = ground (arith, q)
allows-is_safe delete_method get_method p q = ground (arith, q)
allows-is_safe delete_method head_method p q = ground (arith, q)
allows-is_safe other_method n p q = ground (arith, q)
allows-is_safe _ post_method p q = refl
allows-is_safe _ put_method p q = refl
allows-is_safe _ delete_method p q = refl
allows-is_safe _ other_method p q = refl

-- What a request may do: nothing, or its method is not safe and it is atomic.
abbrev IsAllowed : Request → Handler → Type 0
IsAllowed r h = Spares h ⊎ ((is_safe r.method ≡ false) × IsAtomic h)

Spares-IsAllowed : (r : Request) (t : Target) → Obeys Spares t → Obeys (IsAllowed r) t
Spares-IsAllowed r (plain h) o = λ q. inl (o q)
Spares-IsAllowed r (with_value h) o = λ v q. inl (o v q)
Spares-IsAllowed r (with_values h) o = λ v u q. inl (o v u q)

IsAtomic-IsAllowed :
    (r : Request) (t : Target) → is_safe r.method ≡ false → Obeys IsAtomic t → Obeys (IsAllowed r) t
IsAtomic-IsAllowed r (plain h) n o = λ q. inr (n, o q)
IsAtomic-IsAllowed r (with_value h) n o = λ v q. inr (n, o v q)
IsAtomic-IsAllowed r (with_values h) n o = λ v u q. inr (n, o v u q)

IsProper-IsAllowed :
    (e : Entry) (r : Request)
    → allows e.method r.method ≡ true
    → IsProper e
    → Obeys (IsAllowed r) e.target
IsProper-IsAllowed e r q (inl o) = Spares-IsAllowed r e.target o
IsProper-IsAllowed e r q (inr (n, o)) =
    IsAtomic-IsAllowed r e.target (allows-is_safe e.method r.method n q) o

entry_handler-Found :
    (e : Entry) (r : Request) → IsProper e → Found (IsAllowed r) r (entry_handler e r)
unfolding entry_handler
entry_handler-Found e r p = elim (Bool-cases (allows e.method r.method)) [
  | inr q ↦ rw q tt
  | inl q ↦ rw q (
      matched-Found (IsAllowed r) e.target (path_match e.pattern r.path) r
        (IsProper-IsAllowed e r q p))
]

ui_at-Spares : (path : List Text) → Spares (ui_at path)
unfolding ui_at
ui_at-Spares [] st = refl
ui_at-Spares (seg ∷ segs) st = refl

fall_through-Spares : (r : Request) → Spares (fall_through r)
unfolding fall_through handle_ui
fall_through-Spares r st = elim (Bool-cases (is_safe r.method)) [
  | inl q ↦ rw q (ui_at-Spares r.path st)
  | inr q ↦ rw q refl
]

choose-IsAllowed : (es : List Entry) (r : Request) → All IsProper es → IsAllowed r (choose es r)
unfolding choose
choose-IsAllowed [] r p = inl (fall_through-Spares r)
choose-IsAllowed (e ∷ es) r p =
    chosen (entry_handler e r) (entry_handler-Found e r p.0) (choose-IsAllowed es r p.1)
  where
    chosen :
        (o : Option (Request → Handler))
        → Found (IsAllowed r) r o
        → IsAllowed r (choose es r)
        → IsAllowed r (elim o as (λ _. Handler) [ none ↦ choose es r | some h ↦ h r ])
    chosen none f q = q
    chosen (some h) f q = f

serve-IsAllowed : (s : Site) (r : Request) → IsAllowed r (serve s r)
unfolding serve
serve-IsAllowed s r = elim (Bool-cases (admits s.admin_token r)) [
  | inl q ↦ rw q (choose-IsAllowed (routes s) r (routes-IsProper s))
  | inr q ↦ rw q (inl (λ st. refl))
]

-- A request that is answered with an error, whatever it asks and whatever fails in the database or at
-- OpsRamp, leaves the database as it was.
pub serve-IsAtomic :
    (s : Site) (r : Request) (st : State)
    → 400 ≤ (serve s r st).0.status
    → (serve s r st).1.world.db ≡ st.world.db
serve-IsAtomic s r st h = elim (serve-IsAllowed s r) [
  | inl spares ↦ spares st
  | inr (n, atomic) ↦ atomic st h
]

-- The request carries the admin token, where there is one.
abbrev pub IsAuthorised : Site → Request → Type 0
IsAuthorised s r =
    (is_empty s.admin_token ≡ true)
    ⊎ (trim_space (trim_prefix (codes "Bearer ") r.authorization) ≡ s.admin_token)

admitted :
    (s : Site) (r : Request)
    → is_safe r.method ≡ false
    → admits s.admin_token r ≡ true
    → IsAuthorised s r
unfolding admits
admitted s r n q = elim (Bool-cases (is_empty s.admin_token)) [
  | inl e ↦ inl e
  | inr e ↦ inr (
      (text_eq_iff (trim_space (trim_prefix (codes "Bearer ") r.authorization)) s.admin_token).0
        (ground (arith, n, e, q)))
]

-- A request that changes the database is neither a GET nor a HEAD, and carries the admin token where
-- one is configured.
pub serve-writes :
    (s : Site) (r : Request) (st : State)
    → (serve s r st).1.world.db ≢ st.world.db
    → (is_safe r.method ≡ false) × IsAuthorised s r
unfolding serve
serve-writes s r st h = elim (Bool-cases (admits s.admin_token r)) [
  | inr q ↦ absurd (h (rw q refl))
  | inl q ↦ elim (choose-IsAllowed (routes s) r (routes-IsProper s)) [
    | inl spares ↦ absurd (h (rw q (spares st)))
    | inr (n, atomic) ↦ (n, admitted s r n q)
  ]
]
