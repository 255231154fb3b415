-- ===== src/Deploy/Targets/Walks.antt =====
-- The loops of `expandCIDR` and `expandRange` over any row of addresses that `Next` walks along:
-- `at i` is the i-th address.
use opsramp_agent_orchestrat.Prelude.{
  ℕ, zero, suc, ◌+◌, ◌≤◌, ◌<◌, ◌≡◌, Bool, true, false, Bool-cases, inl, inr, ◌⊎◌, not, ◌&&◌, ◌||◌,
  subst, ◌∙◌, List, [], ◌∷◌, ◌++◌, arith, ltb, leb, ◌==◌, if◌then◌else◌, length, length-append,
  Text, ok, err,
}
use mathlib.Core.List.{append_assoc, append-nil}
use opsramp_agent_orchestrat.Deploy.Address.{Addr, addr_eq, next, Prefix, contains, Syntax}
use opsramp_agent_orchestrat.Deploy.Targets.{
  max_targets, cidr_too_large, range_too_large, cidr_loop, range_loop,
}

module _ (syn : Syntax) (tok : Text) (p : Prefix) (fuel : ℕ) (a : Addr) (hosts : List Text) where
  pub cidr_stop :
      (d : Bool) → contains p a ≡ false → cidr_loop syn (suc fuel) tok p d a hosts ≡ ok hosts
  unfolding cidr_loop
  cidr_stop d out = ground (arith, out)

  pub cidr_skip :
      contains p a ≡ true
      → (addr_eq a p.addr || not (contains p (next a))) ≡ true
      → cidr_loop syn (suc fuel) tok p true a hosts ≡ cidr_loop syn fuel tok p true (next a) hosts
  unfolding cidr_loop
  cidr_skip here end = rw (here, end)

  cidr_take :
      (d : Bool)
      → contains p a ≡ true
      → (d && (addr_eq a p.addr || not (contains p (next a)))) ≡ false
      → cidr_loop syn (suc fuel) tok p d a hosts ≡ (
          if ltb max_targets (length hosts + 1)
          then err (cidr_too_large tok)
          else cidr_loop syn fuel tok p d (next a) (hosts ++ syn.show a ∷ []))
  unfolding cidr_loop
  cidr_take d here host = rw (here, host) (rw (length-append hosts (syn.show a ∷ [])))

module _ (syn : Syntax) (at : ℕ → Addr) where
  -- `count` addresses, from the one at place `i`.
  unfoldable pub row : ℕ → ℕ → List Text
  row zero i = []
  row (suc count) i = syn.show (at i) ∷ row count (i + 1)

  -- A walk over the hosts from place `first` up to `last`, where the loop ends.
  module _ (tok : Text) (p : Prefix) (d : Bool) (first last : ℕ)
      (covered : (i : ℕ) → first ≤ i → i < last → contains p (at i) ≡ true)
      (host : (i : ℕ)
        → first ≤ i
        → i < last
        → (d && (addr_eq (at i) p.addr || not (contains p (next (at i))))) ≡ false)
      (steps : (i : ℕ) → first ≤ i → i < last → next (at i) ≡ at (i + 1))
      (finish : (fuel : ℕ) (hosts : List Text)
        → cidr_loop syn (suc (suc fuel)) tok p d (at last) hosts ≡ ok hosts) where
    pub walk :
        (r fuel i : ℕ) (hosts : List Text)
        → first ≤ i
        → i + r ≡ last
        → r + 2 ≤ fuel ⊎ max_targets + 2 ≤ length hosts + fuel
        → length hosts ≤ max_targets
        → cidr_loop syn fuel tok p d (at i) hosts ≡ (
            if leb (length hosts + r) max_targets
            then ok (hosts ++ row r i)
            else err (cidr_too_large tok))
    unfolding row
    walk zero (suc (suc f)) i hosts pos here fuel fits =
        subst (λ n. cidr_loop syn (suc (suc f)) tok p d (at n) hosts ≡ ok hosts) (omega arith)
          (finish f hosts)
        ∙ rw append-nil (ground arith)
    walk (suc r) (suc f) i hosts pos here fuel fits =
        cidr_take syn tok p f (at i) hosts d (covered i pos (omega arith))
          (host i pos (omega arith))
        ∙ elim (Bool-cases (ltb max_targets (length hosts + 1))) [
          | inl full ↦ rw full (ground arith)
          | inr room ↦ rw room (
              rw (steps i pos (omega arith)) (
                walk r f (i + 1) (hosts ++ syn.show (at i) ∷ []) (omega arith) (omega arith)
                  (rw (length-append hosts (syn.show (at i) ∷ [])) (ground arith))
                  (rw (length-append hosts (syn.show (at i) ∷ [])) (ground arith))
                ∙ rw append_assoc (rw (length-append hosts (syn.show (at i) ∷ [])) (ground arith))))
        ]
    walk r _ i hosts pos here fuel fits = absurd (omega arith)

  -- The loop of `expandRange` from place `i` to its end at place `last`: it lists one address more
  -- than `max_targets` before it gives up.
  module _ (tok : Text) (last : ℕ)
      (distinct : (i : ℕ) → i ≤ last → addr_eq (at i) (at last) ≡ (i == last))
      (steps : (i : ℕ) → i < last → next (at i) ≡ at (i + 1)) where
    pub range_walk :
        (r fuel i : ℕ) (hosts : List Text)
        → i + r ≡ last
        → r + 1 ≤ fuel ⊎ max_targets + 2 ≤ length hosts + fuel
        → length hosts ≤ max_targets
        → range_loop syn fuel tok (at i) (at last) hosts ≡ (
            if leb (length hosts + r) max_targets
            then ok (hosts ++ row (suc r) i)
            else err (range_too_large tok))
    unfolding row range_loop
    range_walk r zero i hosts here fuel fits = absurd (omega arith)
    range_walk zero (suc f) i hosts here fuel fits = rw (distinct i (omega arith)) (ground arith)
    range_walk (suc r) (suc f) i hosts here fuel fits = rw (distinct i (omega arith)) (
        rw (steps i (omega arith)) (elim (Bool-cases (ltb max_targets (length hosts + 1))) [
          | inl full ↦ rw (length-append hosts (syn.show (at i) ∷ [])) (ground (arith, full))
          | inr room ↦
              let ih =
                range_walk r f (i + 1) (hosts ++ syn.show (at i) ∷ []) (omega arith)
                  (rw (length-append hosts (syn.show (at i) ∷ [])) (ground arith))
                  (rw (length-append hosts (syn.show (at i) ∷ [])) (ground arith)) in
              rw ih (
                rw append_assoc
                  (rw (length-append hosts (syn.show (at i) ∷ [])) (ground (arith, room))))
        ]))
