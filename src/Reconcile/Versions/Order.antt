-- ===== src/Reconcile/Versions/Order.antt =====
-- internal/reconcile/reconcile.go: `compareVersion` as an order, and the size of what `atoi` reads.
use opsramp_agent_orchestrat.Prelude.{
  ℕ, ◌+◌, ◌*◌, ◌≤◌, ◌≡◌, ◌≢◌, refl, List, [], ◌∷◌, arith, Text, text_eq_iff, text_eq_refl, ◌-◌,
}
use opsramp_agent_orchestrat.Reconcile.Versions.{
  Sign, minus, same, plus, atoi_limit, atoi_from, atoi, compare_fields, version_numbers,
  compare_version,
}

abbrev pub flip : Sign → Sign
flip minus = plus
flip same = same
flip plus = minus

compare_fields_refl : (xs : List ℕ) → compare_fields xs xs ≡ same
unfolding compare_fields
compare_fields_refl [] = refl
compare_fields_refl (x ∷ xs) = ground (arith, compare_fields_refl xs)

compare_fields-flip : (xs ys : List ℕ) → compare_fields ys xs ≡ flip (compare_fields xs ys)
unfolding compare_fields
compare_fields-flip [] [] = refl
compare_fields-flip [] (y ∷ ys) = ground (arith, compare_fields-flip [] ys)
compare_fields-flip (x ∷ xs) [] = ground (arith, compare_fields-flip xs [])
compare_fields-flip (x ∷ xs) (y ∷ ys) = ground (arith, compare_fields-flip xs ys)

compare_fields_trans :
    (xs ys zs : List ℕ)
    → compare_fields xs ys ≢ plus
    → compare_fields ys zs ≢ plus
    → compare_fields xs zs ≢ plus
unfolding compare_fields
compare_fields_trans [] [] zs p q = q
compare_fields_trans [] (y ∷ ys) [] p q = ground arith
compare_fields_trans [] (y ∷ ys) (z ∷ zs) p q = ground (arith, compare_fields_trans [] ys zs)
compare_fields_trans (x ∷ xs) [] [] p q = p
compare_fields_trans (x ∷ xs) [] (z ∷ zs) p q = ground (arith, compare_fields_trans xs [] zs)
compare_fields_trans (x ∷ xs) (y ∷ ys) [] p q = ground (arith, compare_fields_trans xs ys [])
compare_fields_trans (x ∷ xs) (y ∷ ys) (z ∷ zs) p q = ground (arith, compare_fields_trans xs ys zs)

-- The shortcut for equal texts changes nothing.
pub compare_version_lem :
    (a b : Text) → compare_version a b ≡ compare_fields (version_numbers a) (version_numbers b)
unfolding compare_version
compare_version_lem a b = ground (arith, text_eq_iff a b, compare_fields_refl (version_numbers a))

pub compare_version_self : (a : Text) → compare_version a a ≡ same
unfolding compare_version
compare_version_self a = rw (text_eq_refl a)

-- `compareVersion` orders versions: swapping its arguments swaps its answer, and what is not newer
-- than something that is not newer than a third is not newer than the third.
pub compare_version-IsOrder :
    (a b c : Text)
    → (compare_version b a ≡ flip (compare_version a b))
      × (compare_version a b ≢ plus → compare_version b c ≢ plus → compare_version a c ≢ plus)
compare_version-IsOrder a b c =
    rw
      (
        compare_version_lem a b,
        compare_version_lem b a,
        compare_version_lem b c,
        compare_version_lem a c,
      )
      (
        compare_fields-flip (version_numbers a) (version_numbers b),
        compare_fields_trans (version_numbers a) (version_numbers b) (version_numbers c),
      )

atoi_from-le : (n : ℕ) (s : Text) → n ≤ atoi_limit → atoi_from n s ≤ atoi_limit * 10 + 9
unfolding atoi_from
atoi_from-le n [] h = omega arith
atoi_from-le n (c ∷ s) h = ground (arith, atoi_from-le (n * 10 + (c - 48)) s)

-- A version field is at most 10000000009, however long its text: no step passes an `int`.
pub atoi_bounds : (s : Text) → atoi s ≤ 10000000009
unfolding atoi
atoi_bounds s = atoi_from-le 0 s (omega arith)
