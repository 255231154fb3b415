-- ===== src/Deploy/Targets.antt =====
-- internal/deploy/targets.go: `ExpandTargets`, `expandCIDR` and `expandRange`.

pub mod Spec
pub mod Hyphens
pub mod Walks
pub mod Ranges
pub mod Prefill
pub mod Blocks
use opsramp_agent_orchestrat.Prelude.{
  ℕ, zero, suc, ◌+◌, ◌-◌, ◌*◌, ◌/◌, ◌%◌, Bool, true, false, not, ◌&&◌, ◌||◌, Option, none, some,
  List, [], ◌∷◌, ◌++◌, ltb, leb, ◌==◌, if◌then◌else◌, length, Text, codes, text_eq, is_empty,
  trim_space, Result, ok, err, ◌>>=◌,
}
use opsramp_agent_orchestrat.Deploy.Address.{
  Addr, v4, addr_eq, less, next, is4, Prefix, masked, contains, Syntax,
}

abbrev pub max_targets : ℕ
max_targets = 1024

-- The errors, with the token that each message quotes. `out_of_fuel` is not an error of the program:
-- it marks a loop that was cut short.
pub data TargetError : Type 0 where
  too_many no_targets out_of_fuel : TargetError
  invalid_cidr cidr_too_large : Text → TargetError
  invalid_range invalid_start invalid_end invalid_octet short_form range_reversed range_too_large :
      Text → TargetError

-- `strings.FieldsFunc` with the separators of a target spec.
unfoldable pub is_separator : ℕ → Bool
is_separator c = c == 44 || c == 10 || c == 13 || c == 32 || c == 9 || c == 59

push_field : Text → List Text → List Text
push_field [] fs = fs
push_field (c ∷ w) fs = (c ∷ w) ∷ fs

-- `w` is the field that has been begun.
fields_from : Text → Text → List Text
unfolding push_field is_separator
fields_from w [] = push_field w []
fields_from w (c ∷ s) =
    let rest = fields_from (if is_separator c then [] else w ++ c ∷ []) s in
    if is_separator c then push_field w rest else rest

unfoldable pub fields : Text → List Text
unfolding fields_from
fields s = fields_from [] s

-- `strings.Contains(s, "/")` and the like, for one character.
unfoldable pub has_char : ℕ → Text → Bool
has_char c [] = false
has_char c (d ∷ s) = d == c || has_char c s

-- `strings.Cut(s, "-")`
cut_from : ℕ → Text → Text → Option (Text × Text)
cut_from c before [] = none
cut_from c before (d ∷ s) =
    let rest = cut_from c (before ++ d ∷ []) s in if d == c then some (before, s) else rest

unfoldable pub cut : ℕ → Text → Option (Text × Text)
unfolding cut_from
cut c s = cut_from c [] s

-- `seen` and `out` of `ExpandTargets`.
pub record Found : Type 0 where
  pub seen : List Text
  pub out : List Text

unfoldable pub is_seen : Text → List Text → Bool
is_seen h [] = false
is_seen h (x ∷ xs) = text_eq x h || is_seen h xs

unfoldable pub add : Found → Text → Result TargetError Found
unfolding is_seen
add f h =
    let g : Found = record { seen = h ∷ f.seen; out = f.out ++ h ∷ [] } in
    if is_empty h || is_seen h f.seen
    then ok f
    else if ltb max_targets (length g.out)
    then err too_many
    else ok g

unfoldable pub add_all : Found → List Text → Result TargetError Found
add_all f [] = ok f
add_all f (h ∷ hs) = add f h >>= λ g. add_all g hs

module _ (syn : Syntax) where
  -- The loop of `expandCIDR` at `addr`, with the hosts found so far.
  unfoldable pub cidr_loop :
      ℕ → Text → Prefix → Bool → Addr → List Text → Result TargetError (List Text)
  cidr_loop zero tok p drop_ends addr hosts = err out_of_fuel
  cidr_loop (suc fuel) tok p drop_ends addr hosts =
      let skip = drop_ends && (addr_eq addr p.addr || not (contains p (next addr))) in
      let hosts' = if skip then hosts else hosts ++ syn.show addr ∷ [] in
      let rest = cidr_loop fuel tok p drop_ends (next addr) hosts' in
      if not (contains p addr)
      then ok hosts
      else if not skip && ltb max_targets (length hosts')
      then err (cidr_too_large tok)
      else rest

  -- At most 1025 hosts are listed and two are skipped before the loop ends.
  abbrev pub cidr_fuel : ℕ
  cidr_fuel = 1030

  unfoldable pub cidr_hosts : Text → Option Prefix → Result TargetError (List Text)
  cidr_hosts tok none = err (invalid_cidr tok)
  cidr_hosts tok (some q) =
      let p = masked q in cidr_loop cidr_fuel tok p (is4 p.addr && leb p.bits 30) p.addr []

  unfoldable pub expand_cidr : Text → Result TargetError (List Text)
  unfolding cidr_hosts
  expand_cidr tok = cidr_hosts tok (syn.parse_prefix tok)

  -- The loop of `expandRange` at `a`.
  unfoldable pub range_loop : ℕ → Text → Addr → Addr → List Text → Result TargetError (List Text)
  range_loop zero tok a end hosts = err out_of_fuel
  range_loop (suc fuel) tok a end hosts =
      let hosts' = hosts ++ syn.show a ∷ [] in
      let rest = range_loop fuel tok (next a) end hosts' in
      if addr_eq a end
      then ok hosts'
      else if ltb max_targets (length hosts')
      then err (range_too_large tok)
      else rest

  abbrev pub range_fuel : ℕ
  range_fuel = 1026

  -- The short form: the end is the start with its last octet replaced.
  octet_end : Text → ℕ → Option (Bool × ℕ) → Result TargetError Addr
  octet_end raw n none = err (invalid_octet raw)
  octet_end raw n (some (negative, last)) =
      if (negative && not (last == 0)) || ltb 255 last
      then err (invalid_octet raw)
      else ok (v4 (n - n % 256 + last))

  short_end : Text → Text → Addr → Result TargetError Addr
  unfolding octet_end
  short_end tok raw (v4 n) = octet_end raw n (syn.scan_int raw)
  short_end tok raw _ = err (short_form tok)

  or_error : Option Addr → TargetError → Result TargetError Addr
  or_error none e = err e
  or_error (some a) e = ok a

  unfoldable pub range_end : Text → Text → Addr → Result TargetError Addr
  unfolding short_end or_error
  range_end tok raw start =
      if has_char 46 raw || has_char 58 raw
      then or_error (syn.parse_addr raw) (invalid_end raw)
      else short_end tok raw start

  unfoldable pub range_hosts : Text → Addr → Addr → Result TargetError (List Text)
  range_hosts tok start end =
      if less end start then err (range_reversed tok) else range_loop range_fuel tok start end []

  range_parts : Text → Option (Text × Text) → Result TargetError (List Text)
  unfolding range_end range_hosts or_error
  range_parts tok none = err (invalid_range tok)
  range_parts tok (some (lo, hi_raw)) = do
    start ← or_error (syn.parse_addr (trim_space lo)) (invalid_start lo)
    end ← range_end tok (trim_space hi_raw) start
    range_hosts tok start end

  unfoldable pub expand_range : Text → Result TargetError (List Text)
  unfolding range_parts
  expand_range tok = range_parts tok (cut 45 tok)

  -- The hosts of one token.
  unfoldable pub expand_token : Text → Result TargetError (List Text)
  expand_token tok =
      if has_char 47 tok
      then expand_cidr tok
      else if has_char 45 tok
      then expand_range tok
      else ok (tok ∷ [])

  unfoldable pub expand_tokens : Found → List Text → Result TargetError Found
  expand_tokens f [] = ok f
  expand_tokens f (tok ∷ toks) = do
    hosts ← expand_token tok
    g ← add_all f hosts
    expand_tokens g toks

  some_out : List Text → Result TargetError (List Text)
  some_out [] = err no_targets
  some_out (h ∷ hs) = ok (h ∷ hs)

  unfoldable pub expand_targets : Text → Result TargetError (List Text)
  unfolding some_out
  expand_targets spec =
      expand_tokens (record { seen = []; out = [] }) (fields spec) >>= λ f. some_out f.out
