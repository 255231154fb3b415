-- ===== src/Deploy/Shell.antt =====
-- internal/deploy/ssh.go: `shellQuote`, and the part of the POSIX shell's token rules that the
-- commands of this package rely on (XCU 2.2 and 2.3): blanks separate words, a backslash or single
-- quotes take what they cover literally, and any other special character is not read here.
use opsramp_agent_orchestrat.Prelude.{
  ℕ, ◌≡◌, refl, Bool, ◌||◌, ◌&&◌, Option, none, some, List, [], ◌∷◌, ◌++◌, arith, leb, ◌==◌,
  if◌then◌else◌, Text,
}
use mathlib.Core.List.{append_assoc, append-nil}

-- `strings.ReplaceAll(s, "'", `'\''`)`
escape_quotes : Text → Text
escape_quotes [] = []
escape_quotes (c ∷ s) =
    let rest = escape_quotes s in if c == 39 then 39 ∷ 92 ∷ 39 ∷ 39 ∷ rest else c ∷ rest

unfoldable pub shell_quote : Text → Text
unfolding escape_quotes
shell_quote s = 39 ∷ (escape_quotes s ++ 39 ∷ [])

-- The characters that stand for themselves outside quotes, of those the commands use.
is_plain : ℕ → Bool
is_plain c = (leb 97 c && leb c 122) || (leb 65 c && leb c 90) || (leb 45 c && leb c 57) || c == 95

-- Where the reader stands, with the word that it has begun.
pub data Mode : Type 0 where
  gap : Mode
  word : Text → Mode
  quoted : Text → Mode
  escaped : Text → Mode

-- Outside quotes, with the word begun so far.
outside : Text → ℕ → Option (Option Text × Mode)
unfolding is_plain
outside w c =
    if c == 39
    then some (none, quoted w)
    else if c == 92
    then some (none, escaped w)
    else if is_plain c
    then some (none, word (w ++ c ∷ []))
    else none

-- One character: the word that it ends, if any, and the next mode; `none` is a special character.
step : Mode → ℕ → Option (Option Text × Mode)
unfolding outside
step gap c = if c == 32 then some (none, gap) else outside [] c
step (word w) c = if c == 32 then some (some w, gap) else outside w c
step (quoted w) c = some (none, if c == 39 then word w else quoted (w ++ c ∷ []))
step (escaped w) c = some (none, word (w ++ c ∷ []))

emit : Option Text → Option (List Text) → Option (List Text)
emit none r = r
emit (some w) none = none
emit (some w) (some ws) = some (w ∷ ws)

unfoldable pub lex : Mode → Text → Option (List Text)
unfolding step emit
lex gap [] = some []
lex (word w) [] = some (w ∷ [])
lex (quoted w) [] = none
lex (escaped w) [] = none
lex m (c ∷ s) = elim (step m c) [ none ↦ none | some (out, next) ↦ emit out (lex next s) ]

-- The words of a simple command, or `none` where it is more than that.
unfoldable pub words : Text → Option (List Text)
unfolding lex
words s = lex gap s

lex-escape_quotes :
    (w s t : Text) → lex (quoted w) (escape_quotes s ++ 39 ∷ t) ≡ lex (word (w ++ s)) t
unfolding lex escape_quotes
lex-escape_quotes w [] t = rw append-nil refl
lex-escape_quotes w (c ∷ s) t =
    ground (arith, lex-escape_quotes (w ++ c ∷ []) s t, append_assoc w (c ∷ []) s)

-- A quoted value is one word, its content unchanged, whatever characters it holds.
pub lex-shell_quote : (s t : Text) → lex gap (shell_quote s ++ t) ≡ lex (word s) t
unfolding lex shell_quote
lex-shell_quote s t = rw append_assoc (lex-escape_quotes [] s t)

pub lex-shell_quote_end : (s : Text) → lex gap (shell_quote s) ≡ some (s ∷ [])
unfolding lex
lex-shell_quote_end s = rw (← append-nil (shell_quote s)) (lex-shell_quote s [])
