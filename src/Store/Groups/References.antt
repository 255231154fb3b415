-- ===== src/Store/Groups/References.antt =====
-- What deleting a group leaves of it.
use opsramp_agent_orchestrat.Prelude.{
  ◌≡◌, ◌≢◌, refl, ap, sym, ◌∙◌, Bool, true, false, Option, none, some, List, [], ◌∷◌, Text, text_eq,
  text_eq_iff, text_eq_refl, ok, err, arith, Bool-cases, inl, inr, In,
}
use opsramp_agent_orchestrat.Model.{Agent, Group, ConfigVersion}
use opsramp_agent_orchestrat.Store.World.{Error, Db, World, exists, drop_where, update_where, tick}
use opsramp_agent_orchestrat.Store.Steps.{IsReliable}
use opsramp_agent_orchestrat.Store.Agents.{has_group_name}
use opsramp_agent_orchestrat.Store.Groups.{
  default_group, is_version_of, assigns_to, unassign, delete_group_rows, delete_group,
}

-- No agent, version or assignment refers to the group, and there is no such group.
pub record IsForgotten (group : Text) (db : Db) : Type 0 where
  pub no_group : (g : Group) → In g db.groups → g.name ≢ group
  pub no_version : (cv : ConfigVersion) → In cv db.versions → cv.group_name ≢ group
  pub no_assignment : (a : Text × Text) → In a db.assignments → a.0 ≢ group
  pub no_agent : (a : Agent) → In a db.agents → a.assigned_group ≢ some group

In-drop_where :
    {A : Type 0} (p : A → Bool) (a : A) (xs : List A)
    → In a (drop_where p xs)
    → (p a ≡ false) × In a xs
unfolding drop_where
In-drop_where p a [] h = elim h [ ]
In-drop_where p a (x ∷ xs) h =
    let split : In a (drop_where p (x ∷ xs)) → (p a ≡ false) × In a (x ∷ xs) =
      elim (Bool-cases (p x)) [
        | inl e ↦ rw e λ i. let rest = In-drop_where p a xs i in (rest.0, inr rest.1)
        | inr e ↦ rw e λ i. elim i [
          | inl q ↦ (ap p (sym q) ∙ e, inl q)
          | inr q ↦ let rest = In-drop_where p a xs q in (rest.0, inr rest.1)
        ]
      ] in
    split h

In-update_all :
    {A : Type 0} (f : A → A) (a : A) (xs : List A)
    → In a (update_where (λ _. true) f xs)
    → (x : A) × (f x ≡ a)
unfolding update_where
In-update_all f a [] h = elim h [ ]
In-update_all f a (x ∷ xs) (inl e) = (x, e)
In-update_all f a (x ∷ xs) (inr h) = In-update_all f a xs h

unassign-other : (group : Text) (o : Option Text) → unassign group o ≢ some group
unfolding unassign
unassign-other group none h = ground (arith, h)
unassign-other group (some g) h = ground (arith, h, text_eq_iff g group)

delete_group_rows-IsForgotten :
    (group : Text) (db : Db) → IsForgotten group (delete_group_rows group db)
unfolding delete_group_rows has_group_name is_version_of assigns_to
delete_group_rows-IsForgotten group db = record {
  no_group = λ g i e.
      ground (
        arith,
        (In-drop_where (has_group_name group) g db.groups i).0,
        text_eq_iff g.name group,
        e,
      );
  no_version = λ v i e. ground (
    arith,
    (In-drop_where (is_version_of group) v db.versions i).0,
    text_eq_iff v.group_name group,
    e,
  );
  no_assignment = λ a i e.
      ground
        (arith, (In-drop_where (assigns_to group) a db.assignments i).0, text_eq_iff a.0 group, e);
  no_agent = λ a i e.
      let (b, q) =
        In-update_all (λ (c : Agent). record c { assigned_group = unassign group c.assigned_group })
          a db.agents i in
      unassign-other group b.assigned_group (ap (λ (c : Agent). c.assigned_group) q ∙ e);
}

-- Deleting a group that is there and not the default, while the database answers, succeeds and leaves
-- nothing that refers to it.
pub delete_group-IsForgotten :
    (group : Text) (w : World)
    → IsReliable w
    → text_eq group default_group ≡ false
    → exists (has_group_name group) w.db.groups ≡ true
    → ((delete_group group w).0 ≡ ok tt) × IsForgotten group (delete_group group w).1.db
unfolding delete_group tick
delete_group-IsForgotten group w r other there =
    rw (r, other, there) (refl, delete_group_rows-IsForgotten group w.db)

-- The default group cannot be deleted, whatever the database does.
pub delete_group-default : (w : World) → (e : Error) × (delete_group default_group w ≡ (err e, w))
unfolding delete_group
delete_group-default w = rw (text_eq_refl default_group) (_, refl)
