-- ===== src/Opamp/Resolve.antt =====
-- internal/opampserver/reconcile.go: which group governs an agent.
pub mod Least
use opsramp_agent_orchestrat.Prelude.{
  ℕ, ◌≡◌, refl, ◌⊎◌, inl, inr, Bool, true, false, not, ◌&&◌, ◌||◌, Option, none, some, List, [],
  ◌∷◌, if◌then◌else◌, Text, text_eq, text_lt, is_empty, Result, ok, err, In, Bool-cases, arith,
}
use opsramp_agent_orchestrat.Prelude.Dicts
use opsramp_agent_orchestrat.Prelude.Dicts.{Dict}
use opsramp_agent_orchestrat.Prelude.Sorting.{
  sort_by, IsSorted, sort_by-IsSorted, In-sort_by, sort_by-In,
}
use opsramp_agent_orchestrat.Model.{Agent, Group}
use opsramp_agent_orchestrat.Store.World.{Error, World, read, tick}
use opsramp_agent_orchestrat.Store.Groups.{list_groups}

-- An action that has no error of its own: it goes on with what the store's errors leave.
abbrev pub Effect : Type 0 → Type 0
Effect A = World → A × World

-- `for k, v := range more { m[k] = v }`
unfoldable pub merge : Dict Text → Dict Text → Dict Text
merge m [] = m
merge m ((k, v) ∷ more) = merge (Dicts.put m k v) more

unfoldable pub or_empty : Option Text → Text
or_empty none = []
or_empty (some v) = v

-- `m[k]`, which is "" where there is no entry.
unfoldable pub value : Dict Text → Text → Text
unfolding or_empty
value m k = or_empty (Dicts.get m k)

unfoldable pub selector_matches : Dict Text → Dict Text → Bool
unfolding value
selector_matches [] attrs = true
selector_matches ((k, want) ∷ sel) attrs =
    let rest = selector_matches sel attrs in
    if not (text_eq (value attrs k) want) then false else rest

unfoldable pub attrs_of : Agent → Dict Text
unfolding merge
attrs_of a = merge (merge [] a.identifying_attrs) a.non_identifying_attrs

-- The loop's body returns at this group.
unfoldable pub selects : Text → Dict Text → Group → Bool
unfolding selector_matches
selects default attrs g =
    if text_eq g.name default || is_empty g.selector
    then false
    else selector_matches g.selector attrs

unfoldable pub first_selecting : Text → Dict Text → List Group → Text
unfolding selects
first_selecting default attrs [] = default
first_selecting default attrs (g ∷ gs) =
    let rest = first_selecting default attrs gs in if selects default attrs g then g.name else rest

abbrev pub group_name : Group → Text
group_name g = g.name

unfoldable pub among : Text → Agent → Result Error (List Group) × World → Text × World
unfolding sort_by first_selecting attrs_of
among default a (err e, w) = (default, w)
among default a (ok groups, w) =
    (first_selecting default (attrs_of a) (sort_by group_name groups), w)

unfoldable pub assigned : Option Text → Text
assigned none = []
assigned (some g) = g

unfoldable pub resolve_group : Text → Agent → Effect Text
unfolding list_groups among assigned
resolve_group default a w =
    if not (is_empty (assigned a.assigned_group))
    then (assigned a.assigned_group, w)
    else among default a (list_groups w)
