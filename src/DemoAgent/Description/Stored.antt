-- ===== src/DemoAgent/Description/Stored.antt =====
-- What the server stores of the agent's description of itself.
use opsramp_agent_orchestrat.Prelude.{
  ◌≡◌, refl, ap, subst, ◌∙◌, false, Option, none, some, List, [], ◌∷◌, ℕ, Text, codes, text_eq,
  text_eq_iff, is_empty, trim_space, Bool-cases, inl, inr, arith,
}
use opsramp_agent_orchestrat.Prelude.Dicts.{
  Dict, get, put, has_key, AreDistinct, get-put, put-AreDistinct,
}
use opsramp_agent_orchestrat.Store.Agents.{AgentDescription}
use opsramp_agent_orchestrat.Deploy.Targets.{cut}
use opsramp_agent_orchestrat.Opamp.Hex.{hex_encode}
use opsramp_agent_orchestrat.Opamp.Resolve.{value, or_empty}
use opsramp_agent_orchestrat.Opamp.Proto.{
  Printing, any_value_to_string, attrs_from, attrs_to_map, pick, pick_from, store_description,
}
use opsramp_agent_orchestrat.DemoAgent.Identity.{put_label, labels_from, parse_labels, split_commas}
use opsramp_agent_orchestrat.DemoAgent.Description.{
  Host, string_kv, label_attributes, build_description,
}

put_label-AreDistinct :
    (m : Dict Text) (o : Option (Text × Text)) → AreDistinct m → AreDistinct (put_label m o)
unfolding put_label
put_label-AreDistinct m none d = d
put_label-AreDistinct m (some (k, v)) d = put-AreDistinct m (trim_space k) (trim_space v) d

labels_from-AreDistinct :
    (pairs : List Text) (m : Dict Text) → AreDistinct m → AreDistinct (labels_from m pairs)
unfolding labels_from
labels_from-AreDistinct [] m d = d
labels_from-AreDistinct (p ∷ pairs) m d = elim (Bool-cases (is_empty (trim_space p))) [
  | inl e ↦ rw e (labels_from-AreDistinct pairs m d)
  | inr e ↦ rw e (
      labels_from-AreDistinct pairs (put_label m (cut b'=' (trim_space p)))
        (put_label-AreDistinct m (cut b'=' (trim_space p)) d))
]

parse_labels-AreDistinct : (s : Text) → AreDistinct (parse_labels s)
unfolding parse_labels
parse_labels-AreDistinct s = labels_from-AreDistinct (split_commas [] s) [] tt

-- Attributes under other keys change nothing.
attrs_from-absent :
    (p : Printing) (out labels : Dict Text) (k : Text)
    → has_key labels k ≡ false
    → get (attrs_from p out (label_attributes labels)) k ≡ get out k
unfolding attrs_from label_attributes string_kv any_value_to_string has_key
attrs_from-absent p out [] k h = refl
attrs_from-absent p out ((j, v) ∷ labels) k h =
    attrs_from-absent p (put out j v) labels k (ground (arith, h))
    ∙ get-put out j k v
    ∙ ground (arith, h)

attrs_from-label :
    (p : Printing) (out labels : Dict Text) (k v : Text)
    → AreDistinct labels
    → get labels k ≡ some v
    → get (attrs_from p out (label_attributes labels)) k ≡ some v
unfolding attrs_from label_attributes string_kv any_value_to_string get
attrs_from-label p out [] k v d h = ground (arith, h)
attrs_from-label p out ((j, u) ∷ labels) k v d h = elim (Bool-cases (text_eq j k)) [
  | inl e ↦
      let same : j ≡ k = (text_eq_iff j k).0 e in
      attrs_from-absent p (put out j u) labels k (subst (λ i. has_key labels i ≡ false) same d.0)
      ∙ get-put out j k u
      ∙ ground (arith, e, h)
  | inr e ↦ attrs_from-label p (put out j u) labels k v d.1 (ground (arith, e, h))
]

-- The description of an agent with the labels of its environment, as the server stores it.
abbrev pub server_side : Printing → Host → Text → Text → List ℕ → Text → ℕ → AgentDescription
server_side p h name version uid labels caps =
    let d = build_description h name version uid (parse_labels labels) in
    store_description (attrs_to_map p d.identifying_attributes)
      (attrs_to_map p d.non_identifying_attributes) caps

-- What a server stores of the description of an agent with some labels: its name, and the UID in
-- hexadecimal; each label, with its value; and the host's name and system, unless a label has their key.
pub build_description-store_description :
    (p : Printing) (h : Host) (name version : Text) (uid : List ℕ) (labels : Text) (caps : ℕ)
    → ((server_side p h name version uid labels caps).service_name ≡ name)
      × (get
            (server_side p h name version uid labels caps).identifying_attrs
            (codes "service.instance.id")
          ≡ some (hex_encode uid))
      × ((k v : Text)
          → get (parse_labels labels) k ≡ some v
          → get (server_side p h name version uid labels caps).non_identifying_attrs k ≡ some v)
      × (has_key (parse_labels labels) (codes "host.name") ≡ false
          → (server_side p h name version uid labels caps).hostname ≡ h.hostname)
      × (has_key (parse_labels labels) (codes "os.type") ≡ false
          → (server_side p h name version uid labels caps).os_type ≡ h.os)
unfolding build_description store_description attrs_to_map attrs_from string_kv any_value_to_string
    pick pick_from value or_empty get put text_eq
build_description-store_description p h name version uid labels caps =
    let m : Dict Text = parse_labels labels in
    let host : Dict Text =
      (codes "service.version", version)
      ∷ (codes "host.name", h.hostname)
      ∷ (codes "os.type", h.os)
      ∷ (codes "host.arch", h.arch)
      ∷ [] in
    (
      refl,
      refl,
      λ k v e. attrs_from-label p host m k v (parse_labels-AreDistinct labels) e,
      λ e. ap or_empty (attrs_from-absent p host m (codes "host.name") e),
      λ e. ap or_empty (attrs_from-absent p host m (codes "os.type") e),
    )
