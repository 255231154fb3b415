-- ===== src/Opsramp/Endpoints/Paths.antt =====
-- internal/opsramp/client.go and api.go: an id is one segment of its endpoint's path.
use opsramp_agent_orchestrat.Prelude.{
  ℕ, ◌+◌, ◌-◌, ◌*◌, ◌/◌, ◌%◌, ◌<◌, ◌≡◌, ◌≢◌, refl, ap, ◌∙◌, inl, inr, true, false, List, [], ◌∷◌,
  ◌++◌, All, codes, trim_left, ltb, ◌==◌, if◌then◌else◌, Text, arith, Bool-cases,
}
use opsramp_agent_orchestrat.Opsramp.Endpoints.{
  is_plain, upper_hex, path_escape, tenant_path, download_path,
}

-- What a server does to a segment: `url.PathUnescape`, of a text that `path_escape` has made.
abbrev digit_value : ℕ → ℕ
digit_value d = if ltb d b'A' then d - b'0' else d - b'A' + 10

abbrev pub path_unescape : Text → Text
path_unescape [] = []
path_unescape (c ∷ []) = c ∷ []
path_unescape (c ∷ d ∷ []) = c ∷ d ∷ []
path_unescape (c ∷ d ∷ e ∷ s) =
    let rest = path_unescape (d ∷ e ∷ s) in
    let coded = path_unescape s in
    if c == b'%' then (digit_value d * 16 + digit_value e) ∷ coded else c ∷ rest

is_plain-ne : (c : ℕ) → is_plain c ≡ true → (c ≢ b'/') × ((c ≢ b'?') × (c ≢ b'%'))
unfolding is_plain
is_plain-ne c h = ground (arith, h)

upper_hex-ne : (d : ℕ) → d < 16 → (upper_hex d ≢ b'/') × (upper_hex d ≢ b'?')
unfolding upper_hex
upper_hex-ne d h = ground arith

digit_value-upper_hex : (d : ℕ) → d < 16 → digit_value (upper_hex d) ≡ d
unfolding upper_hex
digit_value-upper_hex d h = ground arith

path_unescape-plain : (c : ℕ) (t : Text) → c ≢ b'%' → path_unescape (c ∷ t) ≡ c ∷ path_unescape t
path_unescape-plain c [] h = refl
path_unescape-plain c (d ∷ []) h = refl
path_unescape-plain c (d ∷ e ∷ s) h = ground (arith, h)

path_unescape-coded :
    (c : ℕ) (t : Text)
    → c < 256
    → path_unescape (b'%' ∷ upper_hex (c / 16) ∷ upper_hex (c % 16) ∷ t) ≡ c ∷ path_unescape t
path_unescape-coded c t h =
    let high = digit_value-upper_hex (c / 16) (omega arith) in
    let low = digit_value-upper_hex (c % 16) (omega arith) in
    ap (λ (n : ℕ). n ∷ path_unescape t) (rw (high, low) (omega arith))

-- A byte that can stand in a segment.
abbrev pub IsOfSegment : ℕ → Type 0
IsOfSegment c = (c ≢ b'/') × (c ≢ b'?')

-- An escaped id has no slash and no question mark, so that it is one segment of the path, and the
-- segment decodes to the id, whatever bytes it has.
pub path_escape-path_unescape :
    (s : Text)
    → All (λ c. c < 256) s
    → All IsOfSegment (path_escape s) × (path_unescape (path_escape s) ≡ s)
unfolding path_escape
path_escape-path_unescape [] h = (tt, refl)
path_escape-path_unescape (c ∷ s) h =
    let rest = path_escape-path_unescape s h.1 in
    elim (Bool-cases (is_plain c)) [
      | inl e ↦
          let plain = is_plain-ne c e in
          rw e (
            ((plain.0, plain.1.0), rest.0),
            path_unescape-plain c (path_escape s) plain.1.1 ∙ ap (λ t. c ∷ t) rest.1,
          )
      | inr e ↦ rw e (
        (
          (ground arith, ground arith),
          (
            upper_hex-ne (c / 16) (omega (arith, h.0)),
            (upper_hex-ne (c % 16) (omega arith), rest.0),
          ),
        ),
        path_unescape-coded c (path_escape s) h.0 ∙ ap (λ t. c ∷ t) rest.1,
      )
    ]

-- The segments of a path, between its slashes.
abbrev joined : ℕ → List Text → List Text
joined c [] = (c ∷ []) ∷ []
joined c (seg ∷ segs) = (c ∷ seg) ∷ segs

abbrev pub segments : Text → List Text
segments [] = [] ∷ []
segments (c ∷ s) = let rest = segments s in if c == b'/' then [] ∷ rest else joined c rest

segments-slash : (a b : Text) → All (λ c. c ≢ b'/') a → segments (a ++ b'/' ∷ b) ≡ a ∷ segments b
segments-slash [] b h = refl
segments-slash (c ∷ a) b h =
    let no_slash : (c == b'/') ≡ false = ground (arith, h.0) in
    rw (no_slash, segments-slash a b h.1) refl

segments-end : (a : Text) → All (λ c. c ≢ b'/') a → segments a ≡ a ∷ []
segments-end [] h = refl
segments-end (c ∷ a) h =
    let no_slash : (c == b'/') ≡ false = ground (arith, h.0) in
    rw (no_slash, segments-end a h.1) refl

no_slashes : (s : Text) → All IsOfSegment s → All (λ c. c ≢ b'/') s
no_slashes [] h = tt
no_slashes (c ∷ s) h = (h.0.0, no_slashes s h.1)

-- Whatever platform and package are asked for, the path of the download has exactly one segment for
-- each in its place, and the segment decodes to it, where the tenant's own id has no slash.
pub download_path-segments :
    (tenant platform pkg : Text)
    → All (λ c. c ≢ b'/') tenant
    → All (λ c. c < 256) platform
    → All (λ c. c < 256) pkg
    → (segments (download_path tenant platform pkg)
        ≡ []
          ∷ codes "api"
          ∷ codes "v2"
          ∷ codes "tenants"
          ∷ tenant
          ∷ codes "agents"
          ∷ path_escape platform
          ∷ codes "download"
          ∷ path_escape pkg
          ∷ [])
      × (path_unescape (path_escape platform) ≡ platform)
      × (path_unescape (path_escape pkg) ≡ pkg)
unfolding download_path tenant_path trim_left
download_path-segments tenant platform pkg t p q =
    let one = path_escape-path_unescape platform p in
    let two = path_escape-path_unescape pkg q in
    let last : Text = codes "download/" ++ path_escape pkg in
    (
      rw
          (
            segments-slash tenant (codes "agents/" ++ (path_escape platform ++ b'/' ∷ last)) t,
            segments-slash (path_escape platform) last (no_slashes (path_escape platform) one.0),
            segments-end (path_escape pkg) (no_slashes (path_escape pkg) two.0),
          )
          refl,
      one.1,
      two.1,
    )
