-- ===== src/Config/Loaded.antt =====
-- internal/config/config.go: when a configuration loads, and that its base URLs can be prefixed to a path.
use opsramp_agent_orchestrat.Prelude.{
  ℕ, ◌≡◌, ◌≢◌, ◌↔◌, refl, ap, sym, subst, ◌∙◌, Bool, true, false, [], ◌∷◌, ◌++◌, Text, codes,
  trim_left, trim_right, is_empty, ◌==◌, ok, Bool-cases, inl, inr, arith,
}
use mathlib.Core.List.{reverse, reverse-append, reverse-reverse}
use opsramp_agent_orchestrat.Config.{Environment, Config, env, trimmed_url, defaulted, load}

trim_left_head : (p : ℕ → Bool) (s u : Text) (c : ℕ) → p c ≡ true → trim_left p s ≢ c ∷ u
unfolding trim_left
trim_left_head p [] u c h e = ground (arith, e)
trim_left_head p (d ∷ s) u c h e = elim (Bool-cases (p d)) [
  | inl q ↦ trim_left_head p s u c h (rw q at e)
  | inr q ↦ ground (arith, h, q, rw q at e)
]

-- Nothing that is trimmed is left at the end.
pub trim_right_last :
    (p : ℕ → Bool) (s u : Text) (c : ℕ) → p c ≡ true → trim_right p s ≢ u ++ c ∷ []
unfolding trim_right
trim_right_last p s u c h e =
    trim_left_head p (reverse s) (reverse u) c h
      (sym (reverse-reverse (trim_left p (reverse s))) ∙ ap reverse e ∙ reverse-append u (c ∷ []))

-- The text does not end with a slash.
abbrev pub IsBase : Text → Type 0
IsBase url = (u : Text) → url ≢ u ++ b'/' ∷ []

trimmed_url-IsBase : (e : Environment) (key default : Text) → IsBase (trimmed_url e key default)
unfolding trimmed_url
trimmed_url-IsBase e key default u =
    trim_right_last (λ c. c == b'/') (env e key default) u b'/' refl

-- A configuration loads exactly where the database's URL is set and not empty, and then neither its
-- public base URL nor that of the OpsRamp API ends with a slash, so that a path can follow.
pub load-ok :
    (e : Environment)
    → ((is_empty (env e (codes "DATABASE_URL") []) ≡ false) ↔ ((c : Config) × (load e ≡ ok c)))
      × ((c : Config) → load e ≡ ok c → IsBase c.public_base_url × IsBase c.opsramp.base_url)
unfolding load defaulted
load-ok e = (
  (
    λ set. (defaulted e, rw set refl),
    λ (c, loaded). elim (Bool-cases (is_empty (env e (codes "DATABASE_URL") []))) [
      | inl q ↦ ground (arith, rw q at loaded)
      | inr q ↦ q
    ],
  ),
  λ c loaded. elim (Bool-cases (is_empty (env e (codes "DATABASE_URL") []))) [
    | inl q ↦ ground (arith, rw q at loaded)
    | inr q ↦
        let same : defaulted e ≡ c = ground (arith, rw q at loaded) in
        (
          subst (λ (d : Config). IsBase d.public_base_url) same
              (trimmed_url-IsBase e (codes "PUBLIC_BASE_URL") (codes "http://localhost:8080")),
          subst (λ (d : Config). IsBase d.opsramp.base_url) same
              (trimmed_url-IsBase e (codes "OPSRAMP_API_URL") []),
        )
  ],
)
