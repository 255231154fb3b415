-- ===== src/Deploy/Targets/Ranges.antt =====
-- What a dashed range of IPv4 addresses expands to.
use opsramp_agent_orchestrat.Prelude.{
  ℕ, suc, ◌+◌, ◌-◌, ◌%◌, ◌≤◌, ◌<◌, ◌≡◌, refl, ap, ◌||◌, true, false, some, List, [], arith,
  Bool-cases, inl, inr, ltb, leb, ◌==◌, if◌then◌else◌, Text, Result, ok, err, ◌∙◌, tests,
  trim_space,
}
use native.Mathlib.Nat.{zero-add, add-zero}
use native.Mathlib.Numerals.{add-one}
use opsramp_agent_orchestrat.Deploy.Address.{v4, v4_end, addr_eq, less, Syntax}
use opsramp_agent_orchestrat.Deploy.Targets.{
  TargetError, max_targets, range_reversed, range_too_large, invalid_octet, has_char, cut,
  range_loop, range_hosts, range_end, expand_range,
}
use opsramp_agent_orchestrat.Deploy.Targets.Walks.{range_walk}
use opsramp_agent_orchestrat.Deploy.Targets.Blocks.{at4, at4_lt, at4-next, hosts4, row-at4}

-- The addresses from `a` to `b`, both included.
abbrev pub range4 : Syntax → Text → ℕ → ℕ → Result TargetError (List Text)
range4 syn tok a b =
    if ltb b a
    then err (range_reversed tok)
    else if leb (b - a) max_targets
    then ok (hosts4 syn (b - a + 1) a)
    else err (range_too_large tok)

module _ (syn : Syntax) (tok : Text) (a b : ℕ) (a_in : a < v4_end) (b_in : b < v4_end) where
  distinct4 : (i : ℕ) → a ≤ b → i ≤ b - a → addr_eq (at4 a i) (at4 a (b - a)) ≡ (i == (b - a))
  unfolding addr_eq
  distinct4 i le h = rw (at4_lt a i (omega arith), at4_lt a (b - a) (omega arith)) (ground arith)

  range_loop-v4 :
      a ≤ b
      → range_loop syn 1026 tok (v4 a) (v4 b) [] ≡ (
          if leb (b - a) max_targets
          then ok (hosts4 syn (b - a + 1) a)
          else err (range_too_large tok))
  range_loop-v4 le =
      let at_start : at4 a 0 ≡ v4 a = at4_lt a 0 (omega arith) ∙ ap v4 (omega arith) in
      let at_end : at4 a (b - a) ≡ v4 b = at4_lt a (b - a) (omega arith) ∙ ap v4 (omega arith) in
      rw (← at_start, ← at_end)
        (range_walk syn (at4 a) tok (b - a) (λ i h. distinct4 i le h)
            (λ i lt. at4-next a i (omega arith)) (b - a) 1026 0 [] (omega arith) (inr (omega arith))
            (omega arith)
          ∙ rw (zero-add, row-at4 syn a (suc (b - a)) 0 (omega arith), add-zero, ← add-one (b - a))
              refl)

  pub range_hosts-v4 : range_hosts syn tok (v4 a) (v4 b) ≡ range4 syn tok a b
  unfolding range_hosts less
  range_hosts-v4 = elim (Bool-cases (ltb b a)) [
    | inl reversed ↦ rw reversed
    | inr ordered ↦ rw ordered (range_loop-v4 (ground arith))
  ]

not_above : (last : ℕ) → leb last 255 ≡ true → ltb 255 last ≡ false
not_above last h = ground arith

octet_in : (a last : ℕ) → a < v4_end → leb last 255 ≡ true → a - a % 256 + last < v4_end
octet_in a last lt h = omega (tests)

-- A dashed range whose start is an IPv4 address. With a full end address it lists every address from
-- start to end, both included; with a number of at most 255 it ends at the start's address with the
-- last octet replaced. An end below the start, or more than `max_targets` + 1 addresses, is an error.
pub expand_range-v4 :
    (syn : Syntax) (tok lo hi : Text) (a : ℕ)
    → cut 45 tok ≡ some (lo, hi)
    → syn.parse_addr (trim_space lo) ≡ some (v4 a)
    → a < v4_end
    → ((b : ℕ)
        → (has_char 46 (trim_space hi) || has_char 58 (trim_space hi)) ≡ true
        → syn.parse_addr (trim_space hi) ≡ some (v4 b)
        → b < v4_end
        → expand_range syn tok ≡ range4 syn tok a b)
      × ((last : ℕ)
          → (has_char 46 (trim_space hi) || has_char 58 (trim_space hi)) ≡ false
          → syn.scan_int (trim_space hi) ≡ some (false, last)
          → expand_range syn tok ≡ (
              if leb last 255
              then range4 syn tok a (a - a % 256 + last)
              else err (invalid_octet (trim_space hi))))
unfolding expand_range range_end
expand_range-v4 syn tok lo hi a split start a_in = (
  λ b full end b_in. rw (split, start, full, end) (range_hosts-v4 syn tok a b a_in b_in),
  λ last short number.
      rw (split, start, short, number)
        (elim (Bool-cases (leb last 255)) [
          | inl octet ↦ rw octet (
              rw (not_above last octet)
                (range_hosts-v4 syn tok a (a - a % 256 + last) a_in (octet_in a last a_in octet)))
          | inr above ↦ rw above (ground (arith, above))
        ]),
)
