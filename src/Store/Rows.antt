-- ===== src/Store/Rows.antt =====
-- Finding, updating, adding and dropping rows by a test.
use opsramp_agent_orchestrat.Prelude.{
  ◌≡◌, refl, ap, sym, ◌∙◌, inl, inr, Bool, true, false, none, some, List, [], ◌∷◌, ◌++◌,
  if◌then◌else◌, arith, Bool-cases, Option-cases,
}
use opsramp_agent_orchestrat.Store.World.{find, exists, drop_where, update_where, upsert}

module _ {A : Type 0} (p : A → Bool) where
  pub find-update_where :
      (q : A → Bool) (f : A → A) (xs : List A)
      → ((x : A) → p (f x) ≡ p x)
      → find p (update_where q f xs)
        ≡ elim (find p xs) [ none ↦ none | some x ↦ some (if q x then f x else x) ]
  unfolding find update_where
  find-update_where q f [] keeps = refl
  find-update_where q f (x ∷ xs) keeps = ground (arith, keeps x, find-update_where q f xs keeps)

  pub find-append :
      (xs ys : List A) → find p (xs ++ ys) ≡ elim (find p xs) [ none ↦ find p ys | some x ↦ some x ]
  unfolding find
  find-append [] ys = refl
  find-append (x ∷ xs) ys = ground (arith, find-append xs ys)

  pub find-holds : (xs : List A) (x : A) → find p xs ≡ some x → p x ≡ true
  unfolding find
  find-holds [] x h = ground (arith, h)
  find-holds (y ∷ ys) x h = elim (Bool-cases (p y)) [
    | inl e ↦ let same : y ≡ x = ground (arith, e, h) in ap p (sym same) ∙ e
    | inr e ↦ find-holds ys x (ground (arith, e, h))
  ]

  pub exists_lem : (xs : List A) → exists p xs ≡ elim (find p xs) [ none ↦ false | some x ↦ true ]
  unfolding exists find
  exists_lem [] = refl
  exists_lem (x ∷ xs) = ground (arith, exists_lem xs)

  -- A row with the key is updated, and without one the new row goes in.
  pub find-upsert :
      (f : A → A) (new : A) (xs : List A)
      → ((x : A) → p (f x) ≡ p x)
      → p new ≡ true
      → find p (upsert p f new xs) ≡ elim (find p xs) [ none ↦ some new | some x ↦ some (f x) ]
  unfolding upsert find
  find-upsert f new xs keeps h = elim (Option-cases (find p xs)) [
    | inl e ↦ rw (exists_lem xs, e, find-append xs (new ∷ []), e, h) refl
    | inr (x, e) ↦ rw (exists_lem xs, e, find-update_where p f xs keeps, e, find-holds xs x e) refl
  ]

-- A row put in place of others.
module _ {A : Type 0} (p : A → Bool) (row : A) where
  -- The rows that the test finds are not touched.
  pub find-update_where_other :
      (q : A → Bool) (xs : List A)
      → p row ≡ false
      → ((x : A) → q x ≡ true → p x ≡ false)
      → find p (update_where q (λ _. row) xs) ≡ find p xs
  unfolding find update_where
  find-update_where_other q [] differs other = refl
  find-update_where_other q (x ∷ xs) differs other =
      ground (arith, differs, other x, find-update_where_other q xs differs other)

  pub find-update_where_row :
      (xs : List A)
      → p row ≡ true
      → exists p xs ≡ true
      → find p (update_where p (λ _. row) xs) ≡ some row
  unfolding find update_where exists
  find-update_where_row [] h there = ground (arith, there)
  find-update_where_row (x ∷ xs) h there = elim (Bool-cases (p x)) [
    | inl e ↦ rw e (rw h refl)
    | inr e ↦ let more = find-update_where_row xs h (ground (arith, e, there)) in rw e (rw e more)
  ]

-- Dropping rows by another test.
module _ {A : Type 0} (p q : A → Bool) where
  -- No dropped row passes the test.
  pub find-drop_where :
      (xs : List A) → ((x : A) → p x ≡ true → q x ≡ false) → find p (drop_where q xs) ≡ find p xs
  unfolding find drop_where
  find-drop_where [] other = refl
  find-drop_where (x ∷ xs) other = ground (arith, other x, find-drop_where xs other)
