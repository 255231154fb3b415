-- ===== src/Opamp/Proto/Canonical.antt =====
-- internal/opampserver/protoutil.go: `ConfigMapHash` and the order in which a map is walked.
use opsramp_agent_orchestrat.Prelude.{ℕ, ◌≡◌, refl, ap, ◌∙◌, List, [], ◌∷◌, Text}
use mathlib.Core.List.{Permᴰ}
use opsramp_agent_orchestrat.Prelude.Dicts
use opsramp_agent_orchestrat.Prelude.Dicts.{Dict, AreDistinct, get-perm}
use opsramp_agent_orchestrat.Prelude.Sorting.{sort_by-perm}
use opsramp_agent_orchestrat.Model.{ConfigFile}
use opsramp_agent_orchestrat.Opamp.Proto.{sorted_names, written, canonical, config_map_hash}

keys-perm : (m n : Dict ConfigFile) → Permᴰ m n → Permᴰ (Dicts.keys m) (Dicts.keys n)
unfolding Dicts.keys
keys-perm [] [] Permᴰ.nil = Permᴰ.nil
keys-perm (x ∷ m) (y ∷ n) (Permᴰ.cons e p) = Permᴰ.cons (ap (λ q. q.0) e) (keys-perm m n p)
keys-perm (x ∷ y ∷ m) (z ∷ t ∷ _) (Permᴰ.swap e f) = Permᴰ.swap (ap (λ q. q.0) e) (ap (λ q. q.0) f)
keys-perm m n (Permᴰ.trans p q) = Permᴰ.trans (keys-perm _ _ p) (keys-perm _ _ q)

written-same :
    (m n : Dict ConfigFile) (names : List Text)
    → ((k : Text) → Dicts.get m k ≡ Dicts.get n k)
    → written m names ≡ written n names
unfolding written
written-same m n [] same = refl
written-same m n (name ∷ names) same = rw (same name, written-same m n names same) refl

-- The same entries, listed in any two orders, have the same hash.
pub config_map_hash-order :
    (sha256 : List ℕ → List ℕ) (m n : Dict ConfigFile)
    → AreDistinct m
    → Permᴰ m n
    → config_map_hash sha256 m ≡ config_map_hash sha256 n
unfolding config_map_hash canonical sorted_names
config_map_hash-order sha256 m n distinct p = ap sha256 (
    ap (written m) (sort_by-perm (Dicts.keys m) (Dicts.keys n) (keys-perm m n p))
    ∙ written-same m n (sorted_names n) (get-perm m n p distinct).0)
