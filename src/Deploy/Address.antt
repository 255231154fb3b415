-- ===== src/Deploy/Address.antt =====
-- The part of `net/netip` that internal/deploy/targets.go uses. An address is a number of 32 bits, or
-- of 128 bits with a zone; the text forms are parameters of what uses them.
use opsramp_agent_orchestrat.Prelude.{
  ℕ, ◌+◌, ◌-◌, ◌/◌, ◌%◌, ◌^◌, Bool, true, false, ◌&&◌, ◌||◌, Option, ltb, ◌==◌, if◌then◌else◌, Text,
  text_eq, text_lt, is_empty, [],
}

pub data Addr : Type 0 where
  -- The zero `Addr`, which is no address.
  invalid : Addr
  v4 : ℕ → Addr
  v6 : ℕ → Text → Addr

abbrev pub v4_end : ℕ
v4_end = 2 ^ 32

abbrev pub v6_end : ℕ
v6_end = 2 ^ 128

-- `a == b`
unfoldable pub addr_eq : Addr → Addr → Bool
addr_eq invalid invalid = true
addr_eq (v4 m) (v4 n) = m == n
addr_eq (v6 m y) (v6 n z) = m == n && text_eq y z
addr_eq _ _ = false

-- `ip.Less(ip2)`: by bit length, then by value, then by zone.
unfoldable pub less : Addr → Addr → Bool
less invalid invalid = false
less invalid b = true
less (v4 m) (v4 n) = ltb m n
less (v4 m) (v6 n z) = true
less (v6 m y) (v6 n z) = ltb m n || (m == n && text_lt y z)
less _ _ = false

-- `ip.Next()`; the zero `Addr` behind the last address.
unfoldable pub next : Addr → Addr
next invalid = invalid
next (v4 n) = if ltb (n + 1) v4_end then v4 (n + 1) else invalid
next (v6 n z) = if ltb (n + 1) v6_end then v6 (n + 1) z else invalid

unfoldable pub is4 : Addr → Bool
is4 (v4 n) = true
is4 _ = false

pub record Prefix : Type 0 where
  pub addr : Addr
  pub bits : ℕ

-- How many addresses share a prefix of `bits` bits.
abbrev pub block4 : ℕ → ℕ
block4 bits = 2 ^ (32 - bits)

abbrev pub block6 : ℕ → ℕ
block6 bits = 2 ^ (128 - bits)

-- `p.Masked()`: the host bits are cleared, and a prefix has no zone.
mask : Addr → ℕ → Addr
mask invalid bits = invalid
mask (v4 n) bits = v4 (n - n % block4 bits)
mask (v6 n z) bits = v6 (n - n % block6 bits) []

unfoldable pub masked : Prefix → Prefix
unfolding mask
masked p = record p { addr = mask p.addr p.bits }

-- `p.Contains(ip)`: the same version, no zone, and the same leading bits.
covers : Addr → ℕ → Addr → Bool
covers (v4 m) bits (v4 n) = n / block4 bits == m / block4 bits
covers (v6 m y) bits (v6 n z) = is_empty z && n / block6 bits == m / block6 bits
covers _ bits _ = false

unfoldable pub contains : Prefix → Addr → Bool
unfolding covers
contains p a = covers p.addr p.bits a

-- The text forms: `ParseAddr`, `ParsePrefix`, `Addr.String`, and what `fmt.Sscanf(s, "%d", &n)`
-- reads as a sign (true below zero) and a magnitude.
pub record Syntax : Type 0 where
  pub parse_addr : Text → Option Addr
  pub parse_prefix : Text → Option Prefix
  pub show : Addr → Text
  pub scan_int : Text → Option (Bool × ℕ)
