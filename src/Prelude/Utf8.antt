-- ===== src/Prelude/Utf8.antt =====
-- `strings.ToValidUTF8` with the replacement character.
use Prim.Native.Nat.{ℕ, zero, suc, ◌-◌}
use mathlib.Core.Bool.{Bool, true, false, ◌&&◌, ◌||◌}
use mathlib.Core.List.{[], ◌∷◌}
use opsramp_agent_orchestrat.Prelude.Tests.{Bool-cases, ltb, leb, ◌==◌, if◌then◌else◌}
use opsramp_agent_orchestrat.Prelude.Lists.{All}
use opsramp_agent_orchestrat.Prelude.Texts.{Text}
use mathlib.Core.Logic.{◌≢◌, inl, inr}
use native.Mathlib.Omega.{arith}

within : ℕ → ℕ → ℕ → Bool
within low high c = leb low c && leb c high

-- A continuation byte.
follows : Text → Bool
unfolding within
follows [] = false
follows (c ∷ s) = within 128 191 c

rest_of : Text → Text
rest_of [] = []
rest_of (c ∷ s) = s

-- The second byte, between bounds that depend on the first.
second_within : ℕ → ℕ → Text → Bool
unfolding within
second_within low high [] = false
second_within low high (d ∷ s) = within low high d

-- How many bytes the character at the front has, and 0 where there is none.
rune_length : ℕ → Text → ℕ
unfolding follows rest_of second_within within
rune_length c s =
    if ltb c 128
    then 1
    else if within 194 223 c && follows s
    then 2
    else if (c == 224 && second_within 160 191 s)
        || ((within 225 236 c || within 238 239 c) && follows s)
        || (c == 237 && second_within 128 159 s)
    then (if follows (rest_of s) then 3 else 0)
    else if (c == 240 && second_within 144 191 s)
        || (within 241 243 c && follows s)
        || (c == 244 && second_within 128 143 s)
    then (if follows (rest_of s) && follows (rest_of (rest_of s)) then 4 else 0)
    else 0

-- The bytes left of a character, and whether the bytes before were no part of one: a run of these is
-- replaced once.
unfoldable valid_from : ℕ → Bool → Text → Text
unfolding rune_length
valid_from k bad [] = []
valid_from (suc k) bad (c ∷ s) = c ∷ valid_from k false s
valid_from zero bad (c ∷ s) =
    let wrong = valid_from zero true s in
    let right = valid_from (rune_length c s - 1) false s in
    if rune_length c s == 0 then (if bad then wrong else 239 ∷ 191 ∷ 189 ∷ wrong) else c ∷ right

unfoldable pub to_valid_utf8 : Text → Text
unfolding valid_from
to_valid_utf8 s = valid_from zero false s

valid_from-All :
    (k : ℕ) (bad : Bool) (s : Text) → All (λ c. c ≢ 0) s → All (λ c. c ≢ 0) (valid_from k bad s)
unfolding valid_from
valid_from-All k bad [] h = tt
valid_from-All (suc k) bad (c ∷ s) h = (h.0, valid_from-All k false s h.1)
valid_from-All zero bad (c ∷ s) h =
    let wrong = valid_from-All zero true s h.1 in
    let right = valid_from-All (rune_length c s - 1) false s h.1 in
    elim (Bool-cases (rune_length c s == 0)) [
      | inr e ↦ rw e (h.0, right)
      | inl e ↦ elim (Bool-cases bad) [
        | inl b ↦ rw (e, b) wrong
        | inr b ↦ rw (e, b) (ground arith, (ground arith, (ground arith, wrong)))
      ]
    ]

-- No byte 0 comes in.
pub to_valid_utf8-All : (s : Text) → All (λ c. c ≢ 0) s → All (λ c. c ≢ 0) (to_valid_utf8 s)
unfolding to_valid_utf8
to_valid_utf8-All s h = valid_from-All zero false s h
