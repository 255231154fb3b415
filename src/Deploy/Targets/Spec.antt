-- ===== src/Deploy/Targets/Spec.antt =====
-- internal/deploy/targets.go: the hosts of a successful `ExpandTargets`.
use opsramp_agent_orchestrat.Prelude.{
  ◌≤◌, ◌<◌, ◌≡◌, sym, ◌⊎◌, inl, inr, true, false, List, [], ◌∷◌, ◌++◌, arith, length, Text,
  text_eq_iff, is_empty, Result, ok, In, In-append_left, In-append_right, In-append_cases,
  Bool-cases, Result-cases, subst, ◌↔◌,
}
use opsramp_agent_orchestrat.Deploy.Address.{Syntax}
use opsramp_agent_orchestrat.Deploy.Targets.{
  TargetError, max_targets, Found, is_seen, add, add_all, fields, expand_token, expand_tokens,
  expand_targets, some_out,
}

-- No entry stands twice.
abbrev pub IsNodup : List Text → Type 0
IsNodup [] = Unit
IsNodup (x ∷ xs) = (¬ In x xs) × IsNodup xs

is_seen_iff :
    (h : Text) (xs : List Text) → (is_seen h xs ≡ true → In h xs) × (In h xs → is_seen h xs ≡ true)
unfolding is_seen
is_seen_iff h [] = (λ e. cc, λ h. elim h [ ])
is_seen_iff h (x ∷ xs) = ground (arith, text_eq_iff x h, is_seen_iff h xs)

pub record IsValid (f : Found) : Type 0 where
  pub nodup : IsNodup f.out
  pub seen_out : (h : Text) → In h f.seen → In h f.out
  pub out_seen : (h : Text) → In h f.out → In h f.seen
  pub bounded : length f.out ≤ max_targets
  pub no_blank : (h : Text) → In h f.out → is_empty h ≡ false

abbrev extend : Found → Text → Found
extend f h = record { seen = h ∷ f.seen; out = f.out ++ h ∷ [] }

-- The two ways in which `add` succeeds.
add-cases :
    (f g : Found) (h : Text)
    → add f h ≡ ok g
    → ((g ≡ f) × ((is_empty h ≡ true) ⊎ In h f.seen))
      ⊎ ((g ≡ extend f h)
          × (is_empty h ≡ false)
          × (¬ In h f.seen)
          × (length (f.out ++ h ∷ []) ≤ max_targets))
unfolding add
add-cases f g h e = elim (Bool-cases (is_empty h)) [
  | inl blank ↦ inl (ground (arith, blank), inl blank)
  | inr text ↦ elim (Bool-cases (is_seen h f.seen)) [
    | inl old ↦ inl (ground (arith, old, text), inr ((is_seen_iff h f.seen).0 old))
    | inr new ↦ inr (
      ground (arith, new, text),
      text,
      λ m. ground (arith, new, (is_seen_iff h f.seen).1 m),
      ground (arith, new, text),
    )
  ]
]

IsNodup-snoc : (xs : List Text) (h : Text) → IsNodup xs → ¬ In h xs → IsNodup (xs ++ h ∷ [])
IsNodup-snoc [] h n new = (λ m. elim m [ ], tt)
IsNodup-snoc (x ∷ xs) h n new = (
  λ m. elim (In-append_cases x xs (h ∷ []) m) [
    | inl old ↦ n.0 old
    | inr last ↦ elim last [ inl e ↦ new (inl (sym e)) | inr none_left ↦ elim none_left [ ] ]
  ],
  IsNodup-snoc xs h n.1 (λ m. new (inr m)),
)

In-snoc : (x : Text) (xs : List Text) (h : Text) → In x (xs ++ h ∷ []) → In x xs ⊎ (h ≡ x)
In-snoc x xs h m = elim (In-append_cases x xs (h ∷ []) m) [
  | inl old ↦ inl old
  | inr last ↦ elim last [ inl e ↦ inr e | inr none_left ↦ elim none_left [ ] ]
]

extend-IsValid :
    (f : Found) (h : Text)
    → IsValid f
    → is_empty h ≡ false
    → ¬ In h f.seen
    → length (f.out ++ h ∷ []) ≤ max_targets
    → IsValid (extend f h)
extend-IsValid f h v text new fits = record {
  nodup = IsNodup-snoc f.out h v.nodup (λ m. new (v.out_seen h m));
  seen_out = λ x m. elim m [
    | inl e ↦ In-append_right x f.out (h ∷ []) (inl e)
    | inr old ↦ In-append_left x f.out (h ∷ []) (v.seen_out x old)
  ];
  out_seen = λ x m. elim (In-snoc x f.out h m) [ inl old ↦ inr (v.out_seen x old) | inr e ↦ inl e ];
  bounded = fits;
  no_blank =
      λ x m. elim (In-snoc x f.out h m) [ inl old ↦ v.no_blank x old | inr e ↦ rw (← e) text ];
}

same_hosts :
    (x : Text) {r : Result TargetError (List Text)} {hosts hs : List Text}
    → r ≡ ok hosts
    → r ≡ ok hs
    → In x hs
    → In x hosts
same_hosts x p q m = subst (λ l. In x l) (ground arith) m

-- What `add` keeps and gives: the invariant, the hosts so far, its own host, and nothing else.
record Grows (f g : Found) (P : Text → Type 0) : Type 0 where
  valid : IsValid g
  keeps : (x : Text) → In x f.out → In x g.out
  gains : (x : Text) → is_empty x ≡ false → P x → In x g.out
  only : (x : Text) → In x g.out → In x f.out ⊎ P x

add-Grows : (f g : Found) (h : Text) → IsValid f → add f h ≡ ok g → Grows f g (λ x. h ≡ x)
add-Grows f g h v e = elim (add-cases f g h e) [
  | inl (same, known) ↦ rw same (record {
    valid = v;
    keeps = λ x m. m;
    gains = λ x text q. elim known [ inl blank ↦ cc | inr old ↦ rw (← q) (v.seen_out h old) ];
    only = λ x m. inl m;
  })
  | inr (more, text, new, fits) ↦ rw more (record {
    valid = extend-IsValid f h v text new fits;
    keeps = λ x m. In-append_left x f.out (h ∷ []) m;
    gains = λ x _ q. In-append_right x f.out (h ∷ []) (inl q);
    only = λ x m. In-snoc x f.out h m;
  })
]

-- Two growths, one behind the other.
Grows-trans :
    {f g k : Found} (P Q R : Text → Type 0)
    → ((x : Text) → R x → P x ⊎ Q x)
    → ((x : Text) → P x ⊎ Q x → R x)
    → Grows f g P
    → Grows g k Q
    → Grows f k R
Grows-trans P Q R split join a b = record {
  valid = b.valid;
  keeps = λ x m. b.keeps x (a.keeps x m);
  gains = λ x text r. elim (split x r) [
    | inl p ↦ b.keeps x (a.gains x text p)
    | inr q ↦ b.gains x text q
  ];
  only = λ x m. elim (b.only x m) [
    | inr q ↦ inr (join x (inr q))
    | inl old ↦ elim (a.only x old) [ inl older ↦ inl older | inr p ↦ inr (join x (inl p)) ]
  ];
}

-- The hosts of the empty list of tokens: none.
Grows-refl : {f : Found} (P : Text → Type 0) → ((x : Text) → ¬ P x) → IsValid f → Grows f f P
Grows-refl P never v = record {
  valid = v;
  keeps = λ x m. m;
  gains = λ x _ p. absurd (never x p);
  only = λ x m. inl m;
}

add_all-Grows :
    (f g : Found) (hs : List Text) → IsValid f → add_all f hs ≡ ok g → Grows f g (λ x. In x hs)
unfolding add_all
add_all-Grows f g [] v e =
    subst (λ k. Grows f k (λ x. In x [])) (ground arith)
      (Grows-refl (λ x. In x []) (λ x m. elim m [ ]) v)
add_all-Grows f g (h ∷ hs) v e = elim (Result-cases (add f h)) [
  | inl (k, added) ↦
      Grows-trans (λ x. h ≡ x) (λ x. In x hs) (λ x. In x (h ∷ hs)) (λ x m. m) (λ x m. m)
        (add-Grows f k h v added)
        (add_all-Grows k g hs (add-Grows f k h v added).valid (rw added at e))
  | inr (x, failed) ↦ absurd (ground (arith, failed))
]

abbrev start : Found
start = record { seen = []; out = [] }

start-IsValid : IsValid start
start-IsValid = record {
  nodup = tt;
  seen_out = λ h m. m;
  out_seen = λ h m. m;
  bounded = omega arith;
  no_blank = λ h m. elim m [ ];
}

module _ (syn : Syntax) where
  some_out-eq_ok :
      (o hosts : List Text) → some_out syn o ≡ ok hosts → (hosts ≡ o) × (0 < length hosts)
  unfolding expand_targets
  some_out-eq_ok [] hosts e = cc
  some_out-eq_ok (h ∷ hs) hosts e =
      let same : hosts ≡ h ∷ hs = ground arith in (same, rw same (omega arith))

  -- Some token expands to a list that holds `h`.
  abbrev pub Lists : Text → List Text → Type 0
  Lists h [] = ⊥
  Lists h (tok ∷ toks) =
      ((hosts : List Text) × (expand_token syn tok ≡ ok hosts) × In h hosts) ⊎ Lists h toks

  expand_tokens-Grows :
      (f g : Found) (toks : List Text)
      → IsValid f
      → expand_tokens syn f toks ≡ ok g
      → Grows f g (λ x. Lists x toks)
  unfolding expand_tokens
  expand_tokens-Grows f g [] v e =
      subst (λ k. Grows f k (λ x. Lists x [])) (ground arith)
        (Grows-refl (λ x. Lists x []) (λ x m. m) v)
  expand_tokens-Grows f g (tok ∷ toks) v e = elim (Result-cases (expand_token syn tok)) [
    | inr (x, failed) ↦ absurd (ground (arith, failed))
    | inl (hosts, expanded) ↦ elim (Result-cases (add_all f hosts)) [
      | inr (x, failed) ↦ absurd (ground (arith, expanded, failed))
      | inl (k, added) ↦
          let first = add_all-Grows f k hosts v added in
          Grows-trans (λ x. In x hosts) (λ x. Lists x toks) (λ x. Lists x (tok ∷ toks))
            (λ x m. elim m [
              | inl (hs, e', m') ↦ inl (same_hosts x expanded e' m')
              | inr later ↦ inr later
            ])
            (λ x m. elim m [ inl m' ↦ inl (hosts, expanded, m') | inr later ↦ inr later ]) first
            (expand_tokens-Grows k g toks first.valid (ground (arith, expanded, added)))
    ]
  ]

  -- A successful expansion lists at least one host and at most `max_targets`, none twice and none
  -- blank; and it lists exactly the hosts, other than a blank, that some field of the spec expands to.
  pub expand_targets-eq_ok :
      (spec : Text) (hosts : List Text)
      → expand_targets syn spec ≡ ok hosts
      → IsNodup hosts
        × (0 < length hosts)
        × (length hosts ≤ max_targets)
        × ((h : Text) → In h hosts ↔ ((is_empty h ≡ false) × Lists h (fields spec)))
  unfolding expand_targets
  expand_targets-eq_ok spec hosts e = elim (Result-cases (expand_tokens syn start (fields spec))) [
    | inr (x, failed) ↦ absurd (ground (arith, failed))
    | inl (f, done) ↦
        let (same, some_host) = some_out-eq_ok f.out hosts (rw done at e) in
        let g = expand_tokens-Grows start f (fields spec) start-IsValid done in
        rw same (
          g.valid.nodup,
          rw same at some_host,
          g.valid.bounded,
          λ h. (
            λ m. (
              g.valid.no_blank h m,
              elim (g.only h m) [ inl no_host ↦ elim no_host [ ] | inr l ↦ l ],
            ),
            λ (text, listed). g.gains h text listed,
          ),
        )
  ]
