-- ===== src/Reconcile/Status.antt =====
-- internal/reconcile/reconcile.go: `classify` and its two regular expressions.
use opsramp_agent_orchestrat.Prelude.{
  ℕ, ◌+◌, Bool, true, false, ◌&&◌, ◌||◌, List, [], ◌∷◌, leb, ◌==◌, if◌then◌else◌, Text, codes,
  is_empty, trim_space,
}

-- The three answers of `classify`.
pub data Class : Type 0 where
  down up unknown : Class

-- ASCII case folding.
unfoldable pub lower : ℕ → ℕ
lower c = if leb 65 c && leb c 90 then c + 32 else c

starts_with : Text → Text → Bool
unfolding lower
starts_with [] s = true
starts_with (p ∷ ps) [] = false
starts_with (p ∷ ps) (c ∷ s) = lower c == p && starts_with ps s

-- `word` stands somewhere in the text, in any case of its letters.
unfoldable pub occurs : Text → Text → Bool
unfolding starts_with
occurs word [] = starts_with word []
occurs word (c ∷ s) = starts_with word (c ∷ s) || occurs word s

unfoldable pub any_occurs : List Text → Text → Bool
unfolding occurs
any_occurs [] s = false
any_occurs (w ∷ ws) s = occurs w s || any_occurs ws s

-- `stopp?ed` is two words.
abbrev pub down_words : List Text
down_words =
    codes "down"
    ∷ codes "inactive"
    ∷ codes "offline"
    ∷ codes "error"
    ∷ codes "suspend"
    ∷ codes "dead"
    ∷ codes "stopped"
    ∷ codes "stoped"
    ∷ codes "disconnect"
    ∷ []

abbrev pub up_words : List Text
up_words = codes "active" ∷ codes "up" ∷ codes "online" ∷ codes "running" ∷ codes "connect" ∷ []

unfoldable pub classify : Text → Class
unfolding any_occurs
classify status =
    let s = trim_space status in
    if is_empty s
    then unknown
    else if any_occurs down_words s
    then down
    else if any_occurs up_words s
    then up
    else unknown
