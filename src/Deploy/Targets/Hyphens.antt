-- ===== src/Deploy/Targets/Hyphens.antt =====
-- internal/deploy/targets.go: a token with a hyphen in a target spec.
use opsramp_agent_orchestrat.Prelude.{
  ◌≡◌, refl, ap, ◌∙◌, true, false, none, some, List, [], ◌∷◌, Text, trim_space, Result-cases, err,
  In, inl, inr,
}
use opsramp_agent_orchestrat.Deploy.Address.{Syntax}
use opsramp_agent_orchestrat.Deploy.Targets.{
  TargetError, invalid_start, fields, has_char, cut, Found, add_all, expand_range, expand_token,
  expand_tokens, expand_targets,
}

module _ (syn : Syntax) where
  expand_token-hyphen :
      (tok lo hi : Text)
      → has_char 47 tok ≡ false
      → has_char 45 tok ≡ true
      → cut 45 tok ≡ some (lo, hi)
      → syn.parse_addr (trim_space lo) ≡ none
      → expand_token syn tok ≡ err (invalid_start lo)
  unfolding expand_token expand_range
  expand_token-hyphen tok lo hi no_slash hyphen parts no_address =
      rw (no_slash, hyphen, parts, no_address) refl

  expand_tokens-err :
      (f : Found) (tok : Text) (toks : List Text) (x : TargetError)
      → In tok toks
      → expand_token syn tok ≡ err x
      → (e : TargetError) × (expand_tokens syn f toks ≡ err e)
  unfolding expand_tokens
  expand_tokens-err f tok [] x i h = elim i [ ]
  expand_tokens-err f tok (t ∷ ts) x (inl same) h = (x, rw (ap (expand_token syn) same ∙ h) refl)
  expand_tokens-err f tok (t ∷ ts) x (inr i) h = elim (Result-cases (expand_token syn t)) [
    | inr (y, e) ↦ (y, rw e refl)
    | inl (hosts, e) ↦ elim (Result-cases (add_all f hosts)) [
      | inr (y, a) ↦ (y, rw (e, a) refl)
      | inl (g, a) ↦ let (y, rest) = expand_tokens-err g tok ts x i h in (y, rw (e, a) rest)
    ]
  ]

  -- A spec is refused as a whole where one of its fields has a hyphen and no slash, and what stands before
  -- the first hyphen is no address.
  pub expand_targets-hyphen :
      (spec tok lo hi : Text)
      → In tok (fields spec)
      → has_char 47 tok ≡ false
      → has_char 45 tok ≡ true
      → cut 45 tok ≡ some (lo, hi)
      → syn.parse_addr (trim_space lo) ≡ none
      → (e : TargetError) × (expand_targets syn spec ≡ err e)
  unfolding expand_targets
  expand_targets-hyphen spec tok lo hi i no_slash hyphen parts no_address =
      let (e, failed) =
        expand_tokens-err (record { seen = []; out = [] }) tok (fields spec) (invalid_start lo) i
          (expand_token-hyphen tok lo hi no_slash hyphen parts no_address) in
      (e, rw failed refl)
