-- ===== src/Deploy/Targets/Blocks.antt =====
-- What a CIDR block and a dashed range of IPv4 addresses expand to.
use opsramp_agent_orchestrat.Prelude.{
  ℕ, zero, suc, ◌+◌, ◌-◌, ◌*◌, ◌/◌, ◌%◌, ◌^◌, ◌≤◌, ◌<◌, ◌≡◌, refl, ap, Bool, true, false, not, ◌&&◌,
  ◌||◌, some, List, [], ◌∷◌, arith, ltb, leb, ◌==◌, if◌then◌else◌, Text, Result, ok, err, subst,
  ◌∙◌, inl, inr, Bool-cases, le→leb,
}
use native.Mathlib.Nat.{zero-add, add-zero}
use opsramp_agent_orchestrat.Deploy.Address.{
  Addr, v4, invalid, v4_end, block4, addr_eq, next, is4, Prefix, masked, contains, Syntax,
}
use opsramp_agent_orchestrat.Deploy.Targets.{
  TargetError, max_targets, cidr_too_large, cidr_loop, expand_cidr,
}
use opsramp_agent_orchestrat.Deploy.Targets.Walks.{row, walk, cidr_stop, cidr_skip}

-- Every prefix length fits the 32 bits of an address: the blocks tile the address space.
tiles : ℕ → Bool
tiles zero = true
tiles (suc b) = (block4 b * 2 ^ b == v4_end) && (ltb 0 (block4 b) && tiles b)

tiles_sound : (n b : ℕ) → tiles n ≡ true → b < n → (block4 b * 2 ^ b ≡ v4_end) × (0 < block4 b)
unfolding tiles
tiles_sound zero b h lt = absurd (omega arith)
tiles_sound (suc n) b h lt = ground (arith, tiles_sound n b)

tiles_table : tiles 33 ≡ true
unfolding tiles
tiles_table = refl

block4_tiles : (b : ℕ) → b ≤ 32 → (block4 b * 2 ^ b ≡ v4_end) × (0 < block4 b)
block4_tiles b h = tiles_sound 33 b tiles_table (omega arith)

module _ (s : ℕ) (pos : 0 < s) where
  -- The block of `s` addresses that holds `n`.
  base_multiple : (n : ℕ) → n - n % s ≡ n / s * s
  base_multiple n = grind arith

  div_of_block : (q i : ℕ) → i < s → (q * s + i) / s ≡ q
  div_of_block q i lt = grind arith

  div_past_block : (q : ℕ) → (q * s + s) / s ≡ q + 1
  div_past_block q = grind arith

  block_fits : (q t : ℕ) → q < t → q * s + s ≤ t * s
  block_fits q t lt = grind arith

  div_lt : (n t : ℕ) → n < s * t → n / s < t
  div_lt n t lt = grind arith

-- The i-th address behind `base`, and the zero `Addr` behind the last address.
pub at4 : ℕ → ℕ → Addr
at4 base i = if ltb (base + i) v4_end then v4 (base + i) else invalid

pub at4-next : (base i : ℕ) → base + i < v4_end → next (at4 base i) ≡ at4 base (i + 1)
unfolding next at4
at4-next base i lt = ground arith

pub at4_lt : (base i : ℕ) → base + i < v4_end → at4 base i ≡ v4 (base + i)
unfolding at4
at4_lt base i lt = ground arith

-- `count` IPv4 addresses in their text form, from `start` on.
pub hosts4 : Syntax → ℕ → ℕ → List Text
hosts4 syn zero start = []
hosts4 syn (suc count) start = syn.show (v4 start) ∷ hosts4 syn count (start + 1)

pub row-at4 :
    (syn : Syntax) (base count i : ℕ)
    → base + i + count ≤ v4_end
    → row syn (at4 base) count i ≡ hosts4 syn count (base + i)
unfolding row hosts4
row-at4 syn base zero i h = refl
row-at4 syn base (suc count) i h = rw (at4_lt base i (omega arith)) (
    ap (λ l. syn.show (v4 (base + i)) ∷ l)
      (row-at4 syn base count (i + 1) (omega arith) ∙ ap (hosts4 syn count) (omega arith)))

-- A block: `base` is the multiple `q * s` of its size `s`.
module _ (bits q : ℕ) (pos : 0 < block4 bits) (fits : q * block4 bits + block4 bits ≤ v4_end) where
  abbrev block_base : ℕ
  block_base = q * block4 bits

  abbrev block_prefix : Prefix
  block_prefix = record { addr = v4 block_base; bits = bits }

  covered4 : (i : ℕ) → i < block4 bits → contains block_prefix (at4 block_base i) ≡ true
  unfolding contains
  covered4 i lt =
      rw (at4_lt block_base i (omega arith))
        (ground (arith, div_of_block (block4 bits) pos q i, div_of_block (block4 bits) pos q 0))

  ends4 : contains block_prefix (at4 block_base (block4 bits)) ≡ false
  unfolding contains at4
  ends4 = ground (arith, div_past_block (block4 bits) pos q, div_of_block (block4 bits) pos q 0)

  starts4 : (i : ℕ) → i < block4 bits → addr_eq (at4 block_base i) (v4 block_base) ≡ (i == 0)
  unfolding addr_eq
  starts4 i lt = rw (at4_lt block_base i (omega arith)) (ground arith)

  steps4 : (i : ℕ) → i < block4 bits → next (at4 block_base i) ≡ at4 block_base (i + 1)
  steps4 i lt = at4-next block_base i (omega arith)

  -- What `expandCIDR` answers for the block.
  block_hosts : Syntax → Text → Result TargetError (List Text)
  block_hosts syn tok =
      if leb bits 30
      then (if leb (block4 bits - 2) max_targets
          then ok (hosts4 syn (block4 bits - 2) (block_base + 1))
          else err (cidr_too_large tok))
      else (if leb (block4 bits) max_targets
          then ok (hosts4 syn (block4 bits) block_base)
          else err (cidr_too_large tok))

  -- A block of at least four addresses: the network and the broadcast address are left out.
  walk_inner :
      (syn : Syntax) (tok : Text)
      → 4 ≤ block4 bits
      → cidr_loop syn (suc 1029) tok block_prefix true (v4 block_base) [] ≡ (
          if leb (block4 bits - 2) max_targets
          then ok (hosts4 syn (block4 bits - 2) (block_base + 1))
          else err (cidr_too_large tok))
  walk_inner syn tok big =
      let at = at4 block_base in
      let last = block4 bits - 1 in
      let at_zero : at4 block_base 0 ≡ v4 block_base =
        at4_lt block_base 0 (omega arith) ∙ ap v4 (omega arith) in
      subst
        (λ a. cidr_loop syn 1030 tok block_prefix true a [] ≡ (
          if leb (block4 bits - 2) max_targets
          then ok (hosts4 syn (block4 bits - 2) (block_base + 1))
          else err (cidr_too_large tok)))
        at_zero
        (cidr_skip syn tok block_prefix 1029 (at4 block_base 0) [] (covered4 0 pos)
            (rw (starts4 0 pos) refl)
          ∙ rw (steps4 0 pos) (
              walk syn at tok block_prefix true 1 last (λ i _ lt. covered4 i (omega arith))
                (λ i lo lt. inner i lo (omega arith)) (λ i _ lt. steps4 i (omega arith))
                (λ f hosts. finish f hosts) (block4 bits - 2) 1029 1 [] (omega arith) (omega arith)
                (inr (omega arith)) (omega arith)
              ∙ rw (row-at4 syn block_base (block4 bits - 2) 1 (omega arith)) (rw zero-add refl)))
    where
      inner :
          (i : ℕ)
          → 1 ≤ i
          → i + 1 < block4 bits
          → (true
              && (addr_eq (at4 block_base i) block_prefix.addr
                  || not (contains block_prefix (next (at4 block_base i)))))
            ≡ false
      inner i lo lt =
          rw (starts4 i (omega arith), steps4 i (omega arith), covered4 (i + 1) lt) (ground arith)

      finish :
          (fuel : ℕ) (hosts : List Text)
          → cidr_loop syn
              (suc (suc fuel))
              tok
              block_prefix
              true
              (at4 block_base (block4 bits - 1))
              hosts
            ≡ ok hosts
      finish fuel hosts =
          let on : block4 bits - 1 + 1 ≡ block4 bits = omega arith in
          cidr_skip syn tok block_prefix (suc fuel) (at4 block_base (block4 bits - 1)) hosts
            (covered4 (block4 bits - 1) (omega arith))
            (rw (steps4 (block4 bits - 1) (omega arith), on, ends4) (ground arith))
          ∙ cidr_stop syn tok block_prefix fuel (next (at4 block_base (block4 bits - 1))) hosts true
              (rw (steps4 (block4 bits - 1) (omega arith), on) ends4)

  -- A block of one or two addresses is listed whole.
  walk_all :
      (syn : Syntax) (tok : Text)
      → cidr_loop syn 1030 tok block_prefix false (v4 block_base) [] ≡ (
          if leb (block4 bits) max_targets
          then ok (hosts4 syn (block4 bits) block_base)
          else err (cidr_too_large tok))
  walk_all syn tok =
      let at_zero : at4 block_base 0 ≡ v4 block_base =
        at4_lt block_base 0 (omega arith) ∙ ap v4 (omega arith) in
      subst
        (λ a. cidr_loop syn 1030 tok block_prefix false a [] ≡ (
          if leb (block4 bits) max_targets
          then ok (hosts4 syn (block4 bits) block_base)
          else err (cidr_too_large tok)))
        at_zero
        (walk syn (at4 block_base) tok block_prefix false 0 (block4 bits) (λ i _ lt. covered4 i lt)
            (λ i _ lt. refl) (λ i _ lt. steps4 i lt)
            (λ f hosts.
              cidr_stop syn tok block_prefix (suc f) (at4 block_base (block4 bits)) hosts false
                ends4)
            (block4 bits) 1030 0 [] (omega arith) (omega arith) (inr (omega arith)) (omega arith)
          ∙ rw (row-at4 syn block_base (block4 bits) 0 (omega arith))
              (rw (zero-add, add-zero) refl))

sizes : ℕ → Bool
sizes zero = true
sizes (suc b) = (if leb b 30 then leb 4 (block4 b) else leb (block4 b) max_targets) && sizes b

sizes_sound :
    (n b : ℕ)
    → sizes n ≡ true
    → b < n
    → (leb b 30 ≡ true → 4 ≤ block4 b) × (leb b 30 ≡ false → block4 b ≤ max_targets)
unfolding sizes
sizes_sound zero b h lt = absurd (omega arith)
sizes_sound (suc n) b h lt = ground (arith, sizes_sound n b)

sizes_table : sizes 33 ≡ true
unfolding sizes
sizes_table = refl

-- A CIDR block of IPv4 addresses, with any bits set behind the prefix. With a prefix of at most 30
-- bits its network and broadcast addresses are left out, and with 31 or 32 bits all are listed; more
-- than `max_targets` hosts are an error. The loop ends in every case, for blocks of any size.
pub expand_cidr-v4 :
    (syn : Syntax) (tok : Text) (n bits : ℕ)
    → syn.parse_prefix tok ≡ some (record { addr = v4 n; bits = bits })
    → n < v4_end
    → bits ≤ 32
    → expand_cidr syn tok ≡ (
        if leb bits 30
        then (if leb (block4 bits - 2) max_targets
            then ok (hosts4 syn (block4 bits - 2) (n - n % block4 bits + 1))
            else err (cidr_too_large tok))
        else ok (hosts4 syn (block4 bits) (n - n % block4 bits)))
unfolding expand_cidr masked is4
expand_cidr-v4 syn tok n bits parsed in_range fits =
    let s = block4 bits in
    let tile = block4_tiles bits fits in
    let base : n - n % s ≡ n / s * s = base_multiple s tile.1 n in
    let fit : n / s * s + s ≤ v4_end = rw (← tile.0) (
      omega (
        arith,
        block_fits s tile.1 (n / s) (2 ^ bits) (div_lt s tile.1 n (2 ^ bits) (rw tile.0 in_range)),
      )) in
    rw parsed (
      rw base (elim (Bool-cases (leb bits 30)) [
        | inl large ↦ rw large (
            walk_inner bits (n / s) tile.1 fit syn tok
              ((sizes_sound 33 bits sizes_table (omega arith)).0 large))
        | inr small ↦ rw small (
            walk_all bits (n / s) tile.1 fit syn tok
            ∙ rw (le→leb _ _ ((sizes_sound 33 bits sizes_table (omega arith)).1 small)) refl)
      ]))
