-- ===== src/Prelude/Dicts.antt =====
-- A Go map with string keys, as the list of its entries in some order.
use mathlib.Core.Path.{◌≡◌, refl, ap, ◌∙◌, subst}
use mathlib.Core.Logic.{inl, inr}
use mathlib.Core.Option.{Option, none, some}
use mathlib.Core.Bool.{Bool, false, ◌||◌}
use mathlib.Core.List.{List, [], ◌∷◌, Permᴰ}
use native.Mathlib.Omega.{arith}
use opsramp_agent_orchestrat.Prelude.Tests.{if◌then◌else◌, Bool-cases}
use opsramp_agent_orchestrat.Prelude.Texts.{Text, text_eq, text_eq_iff}

abbrev pub Dict {ℓ} : Type ℓ → Type ℓ
Dict V = List (Text × V)

module _ {ℓ} {V : Type ℓ} where
  -- `v, ok := m[k]`
  unfoldable pub get : Dict V → Text → Option V
  get [] k = none
  get ((j, v) ∷ m) k = if text_eq j k then some v else get m k

  -- `m[k] = v`
  unfoldable pub put : Dict V → Text → V → Dict V
  put [] k v = (k, v) ∷ []
  put ((j, w) ∷ m) k v = let rest = put m k v in if text_eq j k then (k, v) ∷ m else (j, w) ∷ rest

  -- `delete(m, k)`
  unfoldable pub remove : Dict V → Text → Dict V
  remove [] k = []
  remove ((j, w) ∷ m) k = let rest = remove m k in if text_eq j k then rest else (j, w) ∷ rest

  unfoldable pub keys : Dict V → List Text
  keys [] = []
  keys ((j, w) ∷ m) = j ∷ keys m

  pub get-put :
      (m : Dict V) (k j : Text) (v : V)
      → get (put m k v) j ≡ (if text_eq k j then some v else get m j)
  unfolding get put
  get-put [] k j v = refl
  get-put ((i, w) ∷ m) k j v =
      ground (arith, get-put m k j v, text_eq_iff i k, text_eq_iff i j, text_eq_iff k j)

  pub get-remove :
      (m : Dict V) (k j : Text) → get (remove m k) j ≡ (if text_eq k j then none else get m j)
  unfolding get remove
  get-remove [] k j = ground arith
  get-remove ((i, w) ∷ m) k j =
      ground (arith, get-remove m k j, text_eq_iff i k, text_eq_iff i j, text_eq_iff k j)

  -- Whether there is an entry.
  unfoldable pub has_key : Dict V → Text → Bool
  has_key [] k = false
  has_key ((j, v) ∷ m) k = text_eq j k || has_key m k

-- Each key has one entry, as in a map.
abbrev pub AreDistinct {ℓ} : {V : Type ℓ} → Dict V → Type 0
AreDistinct [] = Unit
AreDistinct ((k, v) ∷ m) = (has_key m k ≡ false) × AreDistinct m

module _ {ℓ} {V : Type ℓ} where
  pub has_key-put :
      (m : Dict V) (k j : Text) (v : V) → has_key (put m k v) j ≡ (text_eq k j || has_key m j)
  unfolding has_key put
  has_key-put [] k j v = ground arith
  has_key-put ((i, w) ∷ m) k j v =
      ground (arith, has_key-put m k j v, text_eq_iff i k, text_eq_iff i j, text_eq_iff k j)

  pub put-AreDistinct : (m : Dict V) (k : Text) (v : V) → AreDistinct m → AreDistinct (put m k v)
  unfolding has_key put
  put-AreDistinct [] k v d = (refl, tt)
  put-AreDistinct ((j, w) ∷ m) k v d = elim (Bool-cases (text_eq j k)) [
    | inl e ↦
        let same : j ≡ k = (text_eq_iff j k).0 e in
        rw e (subst (λ i. has_key m i ≡ false) same d.0, d.1)
    | inr e ↦
        let new : has_key (put m k v) j ≡ false =
          ground (arith, has_key-put m k j v, d.0, e, text_eq_iff k j, text_eq_iff j k) in
        rw e (new, put-AreDistinct m k v d.1)
  ]

  -- A rearranged map has the same entries, and distinct keys again.
  pub get-perm :
      (m n : Dict V)
      → Permᴰ m n
      → AreDistinct m
      → ((k : Text) → get m k ≡ get n k) × ((k : Text) → has_key m k ≡ has_key n k) × AreDistinct n
  unfolding get has_key
  get-perm [] [] Permᴰ.nil d = (λ k. refl, λ k. refl, tt)
  get-perm ((i, v) ∷ m) ((j, w) ∷ n) (Permᴰ.cons e p) d =
      let key : i ≡ j = ap (λ q. q.0) e in
      let entry : v ≡ w = ap (λ q. q.1) e in
      let rest = get-perm m n p d.1 in
      (
        λ k. ground (arith, key, entry, rest.0 k),
        λ k. ground (arith, key, rest.1 k),
        (ground (arith, key, rest.1 j, d.0), rest.2),
      )
  get-perm ((i, v) ∷ (j, w) ∷ m) ((a, x) ∷ (b, y) ∷ _) (Permᴰ.swap e f) d =
      let first : i ≡ b = ap (λ q. q.0) e in
      let first_entry : v ≡ y = ap (λ q. q.1) e in
      let second : j ≡ a = ap (λ q. q.0) f in
      let second_entry : w ≡ x = ap (λ q. q.1) f in
      (
        λ k. ground (
          arith,
          first,
          first_entry,
          second,
          second_entry,
          d.0,
          text_eq_iff i k,
          text_eq_iff j k,
          text_eq_iff j i,
        ),
        λ k. ground (arith, first, second),
        (
          ground (arith, first, second, d.0, d.1.0, text_eq_iff j i, text_eq_iff i j),
          (ground (arith, first, d.0), d.1.1),
        ),
      )
  get-perm m n (Permᴰ.trans p q) d =
      let one = get-perm _ _ p d in
      let two = get-perm _ _ q one.2 in (λ k. one.0 k ∙ two.0 k, λ k. one.1 k ∙ two.1 k, two.2)

pub ruleset dict_laws = (get-put, get-remove)
