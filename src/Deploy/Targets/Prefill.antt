-- ===== src/Deploy/Targets/Prefill.antt =====
-- A recommendation's target spec (internal/reconcile/reconcile.go) read back by `ExpandTargets`.
use mathlib.Core.List.{append-nil, append_assoc}
use opsramp_agent_orchestrat.Prelude.{
  ◌≡◌, ◌<◌, ◌≤◌, refl, sym, ap, ◌∙◌, true, false, List, [], ◌∷◌, ◌++◌, arith, Text, is_empty, All,
  length, length-append, ltb, if◌then◌else◌, ok, err, ◌>>=◌, Bool-cases, Result-cases, inl, inr,
}
use opsramp_agent_orchestrat.Deploy.Address.{Syntax}
use opsramp_agent_orchestrat.Deploy.Targets.{
  is_separator, fields, fields_from, push_field, has_char, is_seen, Found, add, add_all,
  expand_token, expand_tokens, expand_targets, max_targets, too_many, no_targets, some_out,
}
use opsramp_agent_orchestrat.Reconcile.{HostRef, join_ips, ip_list, join_commas}

-- Not empty, and no character of it ends a field.
abbrev pub IsField : Text → Type 0
IsField t = (is_empty t ≡ false) × All (λ c. is_separator c ≡ false) t

fields_from-append :
    (w t s : Text)
    → All (λ c. is_separator c ≡ false) t
    → fields_from w (t ++ s) ≡ fields_from (w ++ t) s
unfolding fields
fields_from-append w [] s h = rw append-nil
fields_from-append w (c ∷ t) s h =
    rw (h.0) (fields_from-append (w ++ c ∷ []) t s h.1 ∙ rw append_assoc)

push_field_lem : (t : Text) (fs : List Text) → is_empty t ≡ false → push_field t fs ≡ t ∷ fs
unfolding fields
push_field_lem [] fs h = ground arith
push_field_lem (c ∷ t) fs h = refl

fields-join_commas : (ts : List Text) → All IsField ts → fields (join_commas ts) ≡ ts
unfolding fields join_commas
fields-join_commas [] h = refl
fields-join_commas (t ∷ []) h =
    ap (fields_from []) (sym (append-nil t))
    ∙ fields_from-append [] t [] h.0.1
    ∙ push_field_lem t [] h.0.0
fields-join_commas (t ∷ u ∷ ts) h =
    fields_from-append [] t (44 ∷ join_commas (u ∷ ts)) h.0.1
    ∙ push_field_lem t (fields (join_commas (u ∷ ts))) h.0.0
    ∙ ap (λ l. t ∷ l) (fields-join_commas (u ∷ ts) h.1)

fields-join_ips : (hs : List HostRef) → All IsField (ip_list hs) → fields (join_ips hs) ≡ ip_list hs
unfolding join_ips
fields-join_ips hs h = fields-join_commas (ip_list hs) h

-- A host that stands for itself in a target spec: neither a block nor a range.
abbrev pub IsHost : Text → Type 0
IsHost t = IsField t × (has_char b'/' t ≡ false) × (has_char b'-' t ≡ false)

IsHost-IsField : (ts : List Text) → All IsHost ts → All IsField ts
IsHost-IsField [] h = tt
IsHost-IsField (t ∷ ts) h = (h.0.0, IsHost-IsField ts h.1)

-- Each text where it is listed first, without those that are known.
abbrev pub firsts : List Text → List Text → List Text
firsts known [] = []
firsts known (t ∷ ts) =
    let new = t ∷ firsts (t ∷ known) ts in
    let old = firsts known ts in if is_seen t known then old else new

module _ (syn : Syntax) where
  expand_token-host : (t : Text) → IsHost t → expand_token syn t ≡ ok (t ∷ [])
  unfolding expand_token
  expand_token-host t h = rw (h.1, h.2) refl

  expand_tokens-step :
      (f : Found) (t : Text) (ts : List Text)
      → IsHost t
      → expand_tokens syn f (t ∷ ts) ≡ (add f t >>= λ g. expand_tokens syn g ts)
  unfolding expand_tokens add_all
  expand_tokens-step f t ts h =
      rw (expand_token-host t h)
        (elim (Result-cases (add f t)) [ inl (g, e) ↦ rw e refl | inr (x, e) ↦ rw e refl ])

  abbrev grown : Found → Text → Found
  grown f t = record { seen = t ∷ f.seen; out = f.out ++ t ∷ [] }

  add-old : (f : Found) (t : Text) → is_seen t f.seen ≡ true → add f t ≡ ok f
  unfolding add
  add-old f t old = elim (Bool-cases (is_empty t)) [ inl e ↦ rw e refl | inr e ↦ rw (e, old) refl ]

  add-new :
      (f : Found) (t : Text)
      → IsHost t
      → is_seen t f.seen ≡ false
      → length f.out < max_targets
      → add f t ≡ ok (grown f t)
  unfolding add
  add-new f t h new room =
      let fits : ltb max_targets (length (f.out ++ t ∷ [])) ≡ false =
        ground (arith, length-append f.out (t ∷ []), room) in
      rw (h.0.0, new, fits) refl

  add-full :
      (f : Found) (t : Text)
      → IsHost t
      → is_seen t f.seen ≡ false
      → max_targets ≤ length f.out
      → add f t ≡ err too_many
  unfolding add
  add-full f t h new full =
      let over : ltb max_targets (length (f.out ++ t ∷ [])) ≡ true =
        ground (arith, length-append f.out (t ∷ []), full) in
      rw (h.0.0, new, over) refl

  -- What the tokens give behind the hosts found so far.
  abbrev total : Found → List Text → List Text
  total f ts = f.out ++ firsts f.seen ts

  expand_tokens-fits :
      (f : Found) (ts : List Text)
      → All IsHost ts
      → length (total f ts) ≤ max_targets
      → (g : Found) × (expand_tokens syn f ts ≡ ok g) × (g.out ≡ total f ts)
  unfolding expand_tokens
  expand_tokens-fits f [] h fits = (f, refl, sym (append-nil f.out))
  expand_tokens-fits f (t ∷ ts) h fits = elim (Bool-cases (is_seen t f.seen)) [
    | inl old ↦
        let (g, done, out) = expand_tokens-fits f ts h.1 (rw old at fits) in
        (g, expand_tokens-step f t ts h.0 ∙ rw (add-old f t old) done, rw old out)
    | inr new ↦
        let more : total f (t ∷ ts) ≡ total (grown f t) ts =
          rw new (sym (append_assoc f.out (t ∷ []) (firsts (t ∷ f.seen) ts))) in
        let fewer : length (total (grown f t) ts) ≤ max_targets = rw more at fits in
        let room : length f.out < max_targets = ground (
          arith,
          fewer,
          length-append (f.out ++ t ∷ []) (firsts (t ∷ f.seen) ts),
          length-append f.out (t ∷ []),
        ) in
        let (g, done, out) = expand_tokens-fits (grown f t) ts h.1 fewer in
        (g, expand_tokens-step f t ts h.0 ∙ rw (add-new f t h.0 new room) done, out ∙ sym more)
  ]

  expand_tokens-too_many :
      (f : Found) (ts : List Text)
      → All IsHost ts
      → length f.out ≤ max_targets
      → max_targets < length (total f ts)
      → expand_tokens syn f ts ≡ err too_many
  expand_tokens-too_many f [] h bounded over =
      absurd (omega (arith, bounded, rw append-nil at over))
  expand_tokens-too_many f (t ∷ ts) h bounded over = elim (Bool-cases (is_seen t f.seen)) [
    | inl old ↦
        expand_tokens-step f t ts h.0
        ∙ rw (add-old f t old) (expand_tokens-too_many f ts h.1 bounded (rw old at over))
    | inr new ↦ elim (Bool-cases (ltb (length f.out) max_targets)) [
      | inr full ↦
          expand_tokens-step f t ts h.0 ∙ rw (add-full f t h.0 new (ground (arith, full))) refl
      | inl room ↦
          let more : total f (t ∷ ts) ≡ total (grown f t) ts =
            rw new (sym (append_assoc f.out (t ∷ []) (firsts (t ∷ f.seen) ts))) in
          expand_tokens-step f t ts h.0
          ∙ rw (add-new f t h.0 new (ground (arith, room))) (
              expand_tokens-too_many (grown f t) ts h.1
                (ground (arith, room, length-append f.out (t ∷ []))) (rw more at over))
    ]
  ]

  some_out-some : (o : List Text) → 0 < length o → some_out syn o ≡ ok o
  unfolding expand_targets
  some_out-some [] h = absurd (omega (arith, h))
  some_out-some (x ∷ xs) h = refl

  -- The target spec of a recommendation, whose addresses are neither blocks nor ranges and have no
  -- separator, expands to exactly those addresses, in order, each where it is first listed, as long as
  -- they are between one and `max_targets`; more than these are refused as too many, and none as no targets.
  pub expand_targets-join_ips :
      (hs : List HostRef)
      → All IsHost (ip_list hs)
      → (0 < length (firsts [] (ip_list hs))
          → length (firsts [] (ip_list hs)) ≤ max_targets
          → expand_targets syn (join_ips hs) ≡ ok (firsts [] (ip_list hs)))
        × (max_targets < length (firsts [] (ip_list hs))
            → expand_targets syn (join_ips hs) ≡ err too_many)
        × (ip_list hs ≡ [] → expand_targets syn (join_ips hs) ≡ err no_targets)
  unfolding expand_targets expand_tokens
  expand_targets-join_ips hs h =
      let ips : List Text = ip_list hs in
      let read : fields (join_ips hs) ≡ ips = fields-join_ips hs (IsHost-IsField ips h) in
      let start : Found = record { seen = []; out = [] } in
      (
        λ some fits.
            let (g, done, out) = expand_tokens-fits start ips h fits in
            rw (read, done, out) (some_out-some (firsts [] ips) some),
        λ over. rw (read, expand_tokens-too_many start ips h (omega arith) over) refl,
        λ none_left. rw (read, none_left) refl,
      )
