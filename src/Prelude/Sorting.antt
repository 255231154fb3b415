-- ===== src/Prelude/Sorting.antt =====
-- `sort.Strings` and `sort.Slice` by name: insertion by a key.
use mathlib.Core.Path.{◌≡◌, refl, ap, subst, ◌∙◌}
use mathlib.Core.Logic.{◌⊎◌, inl, inr}
use mathlib.Core.Bool.{true, false}
use mathlib.Core.List.{List, [], ◌∷◌, Permᴰ}
use native.Mathlib.Omega.{arith}
use opsramp_agent_orchestrat.Prelude.Tests.{if◌then◌else◌, Bool-cases}
use opsramp_agent_orchestrat.Prelude.Lists.{In}
use opsramp_agent_orchestrat.Prelude.Texts.{
  Text, text_lt, text_lt_irrefl, text_lt_trans, text_lt_antisym,
}

-- What is not above is not above anything that is not below.
text_le_trans : (s t u : Text) → text_lt t s ≡ false → text_lt u t ≡ false → text_lt u s ≡ false
text_le_trans s t u p q = ground (arith, text_lt_antisym s t, text_lt_trans u s t, text_lt_irrefl t)

text_lt_asym : (s t : Text) → text_lt s t ≡ true → text_lt t s ≡ false
text_lt_asym s t p = ground (arith, text_lt_trans s t s, text_lt_irrefl s)

module _ {ℓ} {A : Type ℓ} (key : A → Text) where
  unfoldable pub insert : A → List A → List A
  insert x [] = x ∷ []
  insert x (y ∷ ys) =
      let rest = insert x ys in if text_lt (key y) (key x) then y ∷ rest else x ∷ y ∷ ys

  unfoldable pub sort_by : List A → List A
  unfolding insert
  sort_by [] = []
  sort_by (x ∷ xs) = insert x (sort_by xs)

  -- No element is below one that stands before it.
  abbrev pub IsSorted : List A → Type ℓ
  IsSorted [] = Unit
  IsSorted (x ∷ xs) = ((y : A) → In y xs → text_lt (key y) (key x) ≡ false) × IsSorted xs

  In-insert : (x a : A) (ys : List A) → In a (insert x ys) → (x ≡ a) ⊎ In a ys
  unfolding insert
  In-insert x a [] h = h
  In-insert x a (y ∷ ys) h =
      let split : In a (insert x (y ∷ ys)) → (x ≡ a) ⊎ In a (y ∷ ys) =
        elim (Bool-cases (text_lt (key y) (key x))) [
          | inl e ↦ rw e λ i. elim i [
            | inl p ↦ inr (inl p)
            | inr r ↦ elim (In-insert x a ys r) [ inl p ↦ inl p | inr q ↦ inr (inr q) ]
          ]
          | inr e ↦ rw e λ i. i
        ] in
      split h

  insert-In : (x a : A) (ys : List A) → (x ≡ a) ⊎ In a ys → In a (insert x ys)
  unfolding insert
  insert-In x a [] h = h
  insert-In x a (y ∷ ys) h = elim (Bool-cases (text_lt (key y) (key x))) [
    | inl e ↦ rw e elim h [
      | inl p ↦ inr (insert-In x a ys (inl p))
      | inr (inl p) ↦ inl p
      | inr (inr q) ↦ inr (insert-In x a ys (inr q))
    ]
    | inr e ↦ rw e h
  ]

  pub In-sort_by : (a : A) (xs : List A) → In a (sort_by xs) → In a xs
  unfolding sort_by
  In-sort_by a [] h = h
  In-sort_by a (x ∷ xs) h = elim (In-insert x a (sort_by xs) h) [
    | inl p ↦ inl p
    | inr q ↦ inr (In-sort_by a xs q)
  ]

  pub sort_by-In : (a : A) (xs : List A) → In a xs → In a (sort_by xs)
  unfolding sort_by
  sort_by-In a [] h = h
  sort_by-In a (x ∷ xs) (inl p) = insert-In x a (sort_by xs) (inl p)
  sort_by-In a (x ∷ xs) (inr q) = insert-In x a (sort_by xs) (inr (sort_by-In a xs q))

  insert-IsSorted : (x : A) (ys : List A) → IsSorted ys → IsSorted (insert x ys)
  unfolding insert
  insert-IsSorted x [] h = (λ y i. elim i [ ], tt)
  insert-IsSorted x (y ∷ ys) h = elim (Bool-cases (text_lt (key y) (key x))) [
    | inl e ↦ rw e (
      λ z i. elim (In-insert x z ys i) [
        | inl p ↦ subst (λ v. text_lt (key v) (key y) ≡ false) p (text_lt_asym (key y) (key x) e)
        | inr q ↦ h.0 z q
      ],
      insert-IsSorted x ys h.1,
    )
    | inr e ↦ rw e (
      λ z i. elim i [
        | inl p ↦ subst (λ v. text_lt (key v) (key x) ≡ false) p e
        | inr q ↦ text_le_trans (key x) (key y) (key z) e (h.0 z q)
      ],
      h,
    )
  ]

  pub sort_by-IsSorted : (xs : List A) → IsSorted (sort_by xs)
  unfolding sort_by
  sort_by-IsSorted [] = tt
  sort_by-IsSorted (x ∷ xs) = insert-IsSorted x (sort_by xs) (sort_by-IsSorted xs)

insert_comm :
    (x y : Text) (l : List Text)
    → insert (λ s. s) x (insert (λ s. s) y l) ≡ insert (λ s. s) y (insert (λ s. s) x l)
unfolding insert
insert_comm x y [] = ground (arith, text_lt_asym x y, text_lt_antisym x y)
insert_comm x y (z ∷ l) = ground (
  arith,
  insert_comm x y l,
  text_lt_asym x y,
  text_lt_antisym x y,
  text_lt_trans x y z,
  text_lt_trans y x z,
  text_lt_trans z x y,
  text_lt_trans z y x,
  text_le_trans x y z,
  text_le_trans y x z,
)

-- Rearranged texts sort to the same list.
pub sort_by-perm : (xs ys : List Text) → Permᴰ xs ys → sort_by (λ s. s) xs ≡ sort_by (λ s. s) ys
unfolding sort_by
sort_by-perm [] [] Permᴰ.nil = refl
sort_by-perm (x ∷ xs) (y ∷ ys) (Permᴰ.cons e p) =
    ap (λ a. insert (λ s. s) a (sort_by (λ s. s) xs)) e
    ∙ ap (insert (λ s. s) y) (sort_by-perm xs ys p)
sort_by-perm (x ∷ y ∷ xs) (z ∷ t ∷ _) (Permᴰ.swap e f) =
    insert_comm x y (sort_by (λ s. s) xs)
    ∙ ap (λ a. insert (λ s. s) a (insert (λ s. s) x (sort_by (λ s. s) xs))) f
    ∙ ap (λ a. insert (λ s. s) z (insert (λ s. s) a (sort_by (λ s. s) xs))) e
sort_by-perm xs ys (Permᴰ.trans p q) = sort_by-perm _ _ p ∙ sort_by-perm _ _ q
