-- ===== src/Prelude/Decimals.antt =====
-- `strconv.Itoa` of a number that is not negative.
use Prim.Native.Nat.{ℕ, zero, suc, ◌+◌, ◌/◌, ◌%◌}
use mathlib.Core.List.{[], ◌∷◌}
use opsramp_agent_orchestrat.Prelude.Tests.{ltb, if◌then◌else◌}
use opsramp_agent_orchestrat.Prelude.Texts.{Text}

digits : ℕ → ℕ → Text → Text
digits zero n acc = acc
digits (suc fuel) n acc =
    let more = digits fuel (n / 10) ((48 + n % 10) ∷ acc) in
    if ltb n 10 then (48 + n) ∷ acc else more

-- 20 places hold every magnitude of 64 bits.
unfoldable pub decimal : ℕ → Text
unfolding digits
decimal n = digits 20 n []
