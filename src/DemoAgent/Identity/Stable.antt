-- ===== src/DemoAgent/Identity/Stable.antt =====
-- cmd/demo-agent/util.go: the UID over restarts.
use opsramp_agent_orchestrat.Prelude.{
  ℕ, ◌≡◌, ◌<◌, ◌/◌, ◌%◌, refl, ap, ◌∙◌, false, Option, none, some, List, [], ◌∷◌, length, Text,
  is_space, trim_left, trim_space, Result, ok, All, All-append, Option-cases, inl, inr, arith,
}
use mathlib.Core.List.{reverse, reverse-cons, reverse-reverse}
use opsramp_agent_orchestrat.Opamp.Hex.{hex_digit, hex_encode, hex_decode-hex_encode}
use opsramp_agent_orchestrat.DemoAgent.Identity.{
  uid_in, stored_uid, made_uid, kept_or_made, load_or_create_instance_uid,
}

-- No white space in a text.
abbrev IsSolid : Text → Type 0
IsSolid s = All (λ c. is_space c ≡ false) s

trim_left-IsSolid : (s : Text) → IsSolid s → trim_left is_space s ≡ s
unfolding trim_left
trim_left-IsSolid [] h = refl
trim_left-IsSolid (c ∷ s) h = rw (h.0) refl

reverse-IsSolid : (s : Text) → IsSolid s → IsSolid (reverse s)
reverse-IsSolid [] h = tt
reverse-IsSolid (c ∷ s) h =
    rw (reverse-cons c s)
      (All-append (λ d. is_space d ≡ false) (reverse s) (c ∷ []) (reverse-IsSolid s h.1) (h.0, tt))

trim_space-IsSolid : (s : Text) → IsSolid s → trim_space s ≡ s
unfolding trim_space
trim_space-IsSolid s h =
    rw (trim_left-IsSolid s h, trim_left-IsSolid (reverse s) (reverse-IsSolid s h))
      (reverse-reverse s)

hex_digit-IsSolid : (n : ℕ) → n < 16 → is_space (hex_digit n) ≡ false
unfolding is_space hex_digit
hex_digit-IsSolid n h = ground arith

hex_encode-IsSolid : (bs : List ℕ) → All (λ b. b < 256) bs → IsSolid (hex_encode bs)
unfolding hex_encode
hex_encode-IsSolid [] h = tt
hex_encode-IsSolid (b ∷ bs) h = (
  hex_digit-IsSolid (b / 16) (omega (arith, h.0)),
  (hex_digit-IsSolid (b % 16) (omega arith), hex_encode-IsSolid bs h.1),
)

-- The file that a start writes is read by the next one.
stored_uid-hex_encode :
    (bs : List ℕ)
    → All (λ b. b < 256) bs
    → length bs ≡ 16
    → stored_uid (some (hex_encode bs)) ≡ some bs
unfolding stored_uid uid_in
stored_uid-hex_encode bs h n =
    rw (trim_space-IsSolid (hex_encode bs) (hex_encode-IsSolid bs h), hex_decode-hex_encode bs h, n)
      refl

made_uid-stored :
    (random : List ℕ) (write_error file : Option Text) (uid : List ℕ)
    → All (λ b. b < 256) random
    → length random ≡ 16
    → (made_uid (ok random) write_error file).0 ≡ ok uid
    → stored_uid (made_uid (ok random) write_error file).1 ≡ some uid
unfolding made_uid
made_uid-stored random none file uid h n e =
    stored_uid-hex_encode random h n ∙ ap some (ground (arith, e))
made_uid-stored random (some x) file uid h n e = ground (arith, e)

-- An agent that has started with a UID starts with the same one from then on, whatever random bytes it
-- is given, where the first start had 16 of them or a stored UID, and leaves the file as it is.
pub load_or_create_instance_uid-stable :
    (random : List ℕ) (again : Result Text (List ℕ)) (write_error later file : Option Text)
    (uid : List ℕ)
    → All (λ b. b < 256) random
    → length random ≡ 16
    → (load_or_create_instance_uid (ok random) write_error file).0 ≡ ok uid
    → load_or_create_instance_uid again later
        (load_or_create_instance_uid (ok random) write_error file).1
      ≡ (ok uid, (load_or_create_instance_uid (ok random) write_error file).1)
unfolding load_or_create_instance_uid kept_or_made
load_or_create_instance_uid-stable random again write_error later file uid h n e =
    elim (Option-cases (stored_uid file)) [
      | inl q ↦
          let first : (made_uid (ok random) write_error file).0 ≡ ok uid = rw q at e in
          rw (q, made_uid-stored random write_error file uid h n first) refl
      | inr (raw, q) ↦
          let same : raw ≡ uid = ground (arith, rw q at e) in
          rw (q, q) (ap (λ (u : List ℕ). (ok u, file)) same)
    ]
