-- ===== src/DemoAgent/Identity.antt =====
-- cmd/demo-agent/util.go: the agent's UID over restarts, and its labels.
pub mod Stable
use opsramp_agent_orchestrat.Prelude.{
  ℕ, ◌≡◌, ◌<◌, refl, ap, ◌∙◌, Bool, true, false, ◌&&◌, Option, none, some, List, [], ◌∷◌, ◌++◌,
  ◌==◌, length, if◌then◌else◌, Text, codes, is_empty, trim_space, Result, ok, err, All, arith,
}
use opsramp_agent_orchestrat.Prelude.Dicts
use opsramp_agent_orchestrat.Prelude.Dicts.{Dict}
use opsramp_agent_orchestrat.Opamp.Hex.{hex_encode, hex_decode}
use opsramp_agent_orchestrat.Deploy.Targets.{cut}

unfoldable pub uid_in : List ℕ × Bool → Option (List ℕ)
uid_in (raw, good) = if good && length raw == 16 then some raw else none

-- What the file holds, where it can be read and is the hexadecimal form of 16 bytes.
unfoldable pub stored_uid : Option Text → Option (List ℕ)
unfolding uid_in hex_decode trim_space
stored_uid none = none
stored_uid (some content) = uid_in (hex_decode (trim_space content))

-- The UID and the file behind it, of random bytes or the error of making them, and the error of
-- writing the file.
unfoldable pub made_uid :
    Result Text (List ℕ) → Option Text → Option Text → Result Text (List ℕ) × Option Text
unfolding hex_encode
made_uid (err e) write_error file = (err e, file)
made_uid (ok random) none file = (ok random, some (hex_encode random))
made_uid (ok random) (some e) file = (err e, file)

unfoldable pub kept_or_made :
    Option (List ℕ)
    → Result Text (List ℕ)
    → Option Text
    → Option Text
    → Result Text (List ℕ) × Option Text
unfolding made_uid
kept_or_made (some raw) random write_error file = (ok raw, file)
kept_or_made none random write_error file = made_uid random write_error file

unfoldable pub load_or_create_instance_uid :
    Result Text (List ℕ) → Option Text → Option Text → Result Text (List ℕ) × Option Text
unfolding stored_uid kept_or_made
load_or_create_instance_uid random write_error file =
    kept_or_made (stored_uid file) random write_error file

-- `strings.Split(s, ",")`
unfoldable pub split_commas : Text → Text → List Text
split_commas part [] = part ∷ []
split_commas part (c ∷ s) =
    let rest = split_commas (if c == b',' then [] else part ++ c ∷ []) s in
    if c == b',' then part ∷ rest else rest

unfoldable pub put_label : Dict Text → Option (Text × Text) → Dict Text
unfolding trim_space
put_label m none = m
put_label m (some (k, v)) = Dicts.put m (trim_space k) (trim_space v)

unfoldable pub labels_from : Dict Text → List Text → Dict Text
unfolding trim_space cut put_label
labels_from m [] = m
labels_from m (pair ∷ pairs) =
    labels_from (if is_empty (trim_space pair) then m else put_label m (cut b'=' (trim_space pair)))
      pairs

unfoldable pub parse_labels : Text → Dict Text
unfolding split_commas labels_from
parse_labels s = labels_from [] (split_commas [] s)
