-- ===== src/Opamp/Resolve/Least.antt =====
-- Which group `resolveGroup` picks among those whose selector matches.
use opsramp_agent_orchestrat.Prelude.{
  ◌≡◌, refl, ◌⊎◌, inl, inr, subst, ap, sym, true, false, List, [], ◌∷◌, Text, text_lt,
  text_lt_irrefl, Result, ok, err, In, Bool-cases, is_empty, arith,
}
use opsramp_agent_orchestrat.Prelude.Dicts.{Dict}
use opsramp_agent_orchestrat.Prelude.Sorting.{
  sort_by, IsSorted, sort_by-IsSorted, In-sort_by, sort_by-In,
}
use opsramp_agent_orchestrat.Model.{Agent, Group}
use opsramp_agent_orchestrat.Store.World.{Error, World}
use opsramp_agent_orchestrat.Store.Steps.{Answers, read-Answers, IsReliable, read-IsReliable}
use opsramp_agent_orchestrat.Store.Groups.{list_groups}
use opsramp_agent_orchestrat.Opamp.Resolve.{
  attrs_of, selects, first_selecting, group_name, among, assigned, resolve_group,
}

-- The name is that of a group that selects, and no other that does has a lower name; or it is the
-- default, and no group selects.
abbrev pub Governs : Text → Dict Text → List Group → Text → Type 0
Governs default attrs gs name =
    ((g : Group) × In g gs
      × (selects default attrs g ≡ true)
      × (g.name ≡ name)
      × ((h : Group) → In h gs → selects default attrs h ≡ true → text_lt h.name g.name ≡ false))
    ⊎ ((name ≡ default) × ((h : Group) → In h gs → selects default attrs h ≡ false))

first_selecting-Governs :
    (default : Text) (attrs : Dict Text) (gs : List Group)
    → IsSorted group_name gs
    → Governs default attrs gs (first_selecting default attrs gs)
unfolding first_selecting
first_selecting-Governs default attrs [] s = inr (refl, λ h i. elim i [ ])
first_selecting-Governs default attrs (g ∷ gs) s = elim (Bool-cases (selects default attrs g)) [
  | inl e ↦ rw e (
      inl (
        g,
        inl refl,
        e,
        refl,
        λ h i _. elim i [
          | inl p ↦ subst (λ x. text_lt (group_name x) g.name ≡ false) p (text_lt_irrefl g.name)
          | inr q ↦ s.0 h q
        ],
      ))
  | inr e ↦ rw e elim (first_selecting-Governs default attrs gs s.1) [
    | inl (f, i, sel, n, least) ↦ inl (
      f,
      inr i,
      sel,
      n,
      λ h j m. elim j [
        | inl p ↦ ground (arith, subst (λ x. selects default attrs x ≡ false) p e, m)
        | inr q ↦ least h q m
      ],
    )
    | inr (n, nothing) ↦ inr (
      n,
      λ h j. elim j [
        | inl p ↦ subst (λ x. selects default attrs x ≡ false) p e
        | inr q ↦ nothing h q
      ],
    )
  ]
]

-- The order of the rows does not matter.
Governs-sort_by :
    (default : Text) (attrs : Dict Text) (gs : List Group) (name : Text)
    → Governs default attrs (sort_by group_name gs) name
    → Governs default attrs gs name
Governs-sort_by default attrs gs name (inl (g, i, sel, n, least)) =
    inl (g, In-sort_by group_name g gs i, sel, n, λ h j m. least h (sort_by-In group_name h gs j) m)
Governs-sort_by default attrs gs name (inr (n, nothing)) =
    inr (n, λ h j. nothing h (sort_by-In group_name h gs j))

list_groups-ok : (w : World) → Answers w → (list_groups w).0 ≡ ok (sort_by group_name w.db.groups)
unfolding list_groups
list_groups-ok w h = read-Answers (λ db. ok (sort_by group_name db.groups)) w h

among-ok :
    (default : Text) (a : Agent) (r : Result Error (List Group) × World) (gs : List Group)
    → r.0 ≡ ok gs
    → (among default a r).0 ≡ first_selecting default (attrs_of a) (sort_by group_name gs)
unfolding among
among-ok default a (ok hs, w) gs h =
    let same : hs ≡ gs = ground (arith, h) in
    ap (λ x. first_selecting default (attrs_of a) (sort_by group_name x)) same
among-ok default a (err e, w) gs h = ground (arith, h)

-- An agent with no assigned group, or with the empty one, when the store answers, gets the least-named group other than
-- the default whose selector is not empty and matches its attributes, and the default where there is
-- none.
pub resolve_group-Governs :
    (default : Text) (a : Agent) (w : World)
    → assigned a.assigned_group ≡ []
    → Answers w
    → Governs default (attrs_of a) w.db.groups (resolve_group default a w).0
unfolding resolve_group
resolve_group-Governs default a w unassigned answers =
    let sorted : List Group = sort_by group_name w.db.groups in
    let result : (resolve_group default a w).0
        ≡ first_selecting default (attrs_of a) (sort_by group_name sorted) =
      rw (unassigned, assigned)
        (among-ok default a (list_groups w) sorted (list_groups-ok w answers)) in
    subst (Governs default (attrs_of a) w.db.groups) (sym result) (
      Governs-sort_by default (attrs_of a) w.db.groups
        (first_selecting default (attrs_of a) (sort_by group_name sorted))
        (Governs-sort_by default (attrs_of a) sorted
          (first_selecting default (attrs_of a) (sort_by group_name sorted))
          (first_selecting-Governs default (attrs_of a) (sort_by group_name sorted)
            (sort_by-IsSorted group_name sorted))))

among-world :
    (default : Text) (a : Agent) (r : Result Error (List Group)) (w : World)
    → (among default a (r, w)).1 ≡ w
unfolding among
among-world default a (ok gs) w = refl
among-world default a (err e) w = refl

pub resolve_group-world :
    (default : Text) (a : Agent) (w : World) → IsReliable w → (resolve_group default a w).1 ≡ w
unfolding resolve_group list_groups
resolve_group-world default a w r = elim (Bool-cases (is_empty (assigned a.assigned_group))) [
  | inl e ↦
      rw (e, read-IsReliable (λ db. ok (sort_by (λ (g : Group). g.name) db.groups)) w r)
        (among-world default a (ok (sort_by (λ (g : Group). g.name) w.db.groups)) w)
  | inr e ↦ rw e refl
]
