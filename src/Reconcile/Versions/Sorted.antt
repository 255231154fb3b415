-- ===== src/Reconcile/Versions/Sorted.antt =====
-- internal/reconcile/reconcile.go: the order of `sortVersionsDesc`.
use mathlib.Core.List.{append-nil, reverse, reverse-cons, reverse_perm, Perm, perm_middle}
use mathlib.Core.List.Perm
use opsramp_agent_orchestrat.Prelude.{
  ◌≡◌, ◌≢◌, true, false, Bool-cases, inl, inr, List, [], ◌∷◌, ◌++◌, arith, All, All-append,
}
use opsramp_agent_orchestrat.Reconcile.Versions.{
  plus, compare_version, VersionCount, below, sink, sort_from, sort_versions_desc,
}
use opsramp_agent_orchestrat.Reconcile.Versions.Order.{compare_version-IsOrder}

-- `v` is not newer than `w`.
abbrev IsAtMost : VersionCount → VersionCount → Type 0
IsAtMost v w = compare_version v.version w.version ≢ plus

abbrev IsAscending : List VersionCount → Type 0
IsAscending [] = Unit
IsAscending (v ∷ vs) = All (λ w. IsAtMost v w) vs × IsAscending vs

-- Each entry is at least as new as all behind it.
abbrev pub IsDescending : List VersionCount → Type 0
IsDescending [] = Unit
IsDescending (v ∷ vs) = All (λ w. compare_version w.version v.version ≢ plus) vs × IsDescending vs

IsAtMost-trans : (u v w : VersionCount) → IsAtMost u v → IsAtMost v w → IsAtMost u w
IsAtMost-trans u v w = (compare_version-IsOrder u.version v.version w.version).1

All-IsAtMost_trans :
    (u v : VersionCount) (ws : List VersionCount)
    → IsAtMost u v
    → All (λ w. IsAtMost v w) ws
    → All (λ w. IsAtMost u w) ws
All-IsAtMost_trans u v [] h a = tt
All-IsAtMost_trans u v (w ∷ ws) h a = (IsAtMost-trans u v w h a.0, All-IsAtMost_trans u v ws h a.1)

below-true : (v x : VersionCount) → below v x ≡ true → IsAtMost v x
unfolding below
below-true v x h = ground arith

below-false : (v x : VersionCount) → below v x ≡ false → IsAtMost x v
unfolding below
below-false v x h = ground (arith, (compare_version-IsOrder v.version x.version v.version).0)

All-sink :
    (u x : VersionCount) (vs : List VersionCount)
    → IsAtMost u x
    → All (λ w. IsAtMost u w) vs
    → All (λ w. IsAtMost u w) (sink x vs)
unfolding sink
All-sink u x [] h a = (h, tt)
All-sink u x (v ∷ vs) h a = elim (Bool-cases (below v x)) [
  | inl lower ↦ rw lower (a.0, All-sink u x vs h a.1)
  | inr rest ↦ rw rest (h, a)
]

sink-IsAscending :
    (x : VersionCount) (vs : List VersionCount) → IsAscending vs → IsAscending (sink x vs)
unfolding sink
sink-IsAscending x [] a = (tt, tt)
sink-IsAscending x (v ∷ vs) a = elim (Bool-cases (below v x)) [
  | inl lower ↦ rw lower (All-sink v x vs (below-true v x lower) a.0, sink-IsAscending x vs a.1)
  | inr rest ↦ let h = below-false v x rest in rw rest ((h, All-IsAtMost_trans x v vs h a.0), a)
]

sort_from-IsAscending :
    (done xs : List VersionCount) → IsAscending done → IsAscending (sort_from done xs)
unfolding sort_from
sort_from-IsAscending done [] a = a
sort_from-IsAscending done (x ∷ xs) a =
    sort_from-IsAscending (sink x done) xs (sink-IsAscending x done a)

IsDescending-snoc :
    (vs : List VersionCount) (x : VersionCount)
    → IsDescending vs
    → All (λ w. IsAtMost x w) vs
    → IsDescending (vs ++ x ∷ [])
IsDescending-snoc [] x d a = (tt, tt)
IsDescending-snoc (v ∷ vs) x d a =
    (All-append (λ w. IsAtMost w v) vs (x ∷ []) d.0 (a.0, tt), IsDescending-snoc vs x d.1 a.1)

All-reverse :
    (u : VersionCount) (vs : List VersionCount)
    → All (λ w. IsAtMost u w) vs
    → All (λ w. IsAtMost u w) (reverse vs)
All-reverse u [] a = tt
All-reverse u (v ∷ vs) a =
    rw (reverse-cons v vs)
      (All-append (λ w. IsAtMost u w) (reverse vs) (v ∷ []) (All-reverse u vs a.1) (a.0, tt))

reverse-IsDescending : (vs : List VersionCount) → IsAscending vs → IsDescending (reverse vs)
reverse-IsDescending [] a = tt
reverse-IsDescending (v ∷ vs) a =
    rw (reverse-cons v vs)
      (IsDescending-snoc (reverse vs) v (reverse-IsDescending vs a.1) (All-reverse v vs a.0))

sink-perm : (x : VersionCount) (vs : List VersionCount) → Perm (sink x vs) (x ∷ vs)
unfolding sink
sink-perm x [] = Perm.refl (x ∷ [])
sink-perm x (v ∷ vs) = elim (Bool-cases (below v x)) [
  | inl lower ↦ rw lower (Perm.trans (Perm.cons v (sink-perm x vs)) (Perm.swap x v vs))
  | inr rest ↦ rw rest (Perm.refl (x ∷ v ∷ vs))
]

sort_from-perm : (done xs : List VersionCount) → Perm (sort_from done xs) (done ++ xs)
unfolding sort_from
sort_from-perm done [] = rw append-nil (Perm.refl done)
sort_from-perm done (x ∷ xs) =
    Perm.trans (sort_from-perm (sink x done) xs)
      (Perm.trans (Perm.append (sink-perm x done) (Perm.refl xs)) (Perm.symm (perm_middle done xs)))

-- The sorted histogram holds the same entries, each at least as new as every entry behind it.
pub sort_versions_desc-IsDescending :
    (vs : List VersionCount)
    → IsDescending (sort_versions_desc vs) × Perm (sort_versions_desc vs) vs
unfolding sort_versions_desc
sort_versions_desc-IsDescending vs = (
  reverse-IsDescending (sort_from [] vs) (sort_from-IsAscending [] vs tt),
  Perm.trans (reverse_perm (sort_from [] vs)) (sort_from-perm [] vs),
)
