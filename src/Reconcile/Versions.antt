-- ===== src/Reconcile/Versions.antt =====
-- internal/reconcile/reconcile.go: `compareVersion`, `atoi` and `sortVersionsDesc`.
pub mod Order
pub mod Sorted
use opsramp_agent_orchestrat.Prelude.{
  ℕ, zero, suc, ◌+◌, ◌-◌, ◌*◌, Bool, true, false, ◌&&◌, List, [], ◌∷◌, ◌++◌, ltb, leb, ◌==◌,
  if◌then◌else◌, Text, text_eq,
}
use mathlib.Core.List.{reverse}

-- -1, 0 and 1.
pub data Sign : Type 0 where
  minus same plus : Sign

unfoldable pub is_digit : ℕ → Bool
is_digit c = leb 48 c && leb c 57

push_digits : Text → List Text → List Text
push_digits [] fs = fs
push_digits (c ∷ w) fs = (c ∷ w) ∷ fs

-- `w` is the run of digits that has been begun.
digit_runs_from : Text → Text → List Text
unfolding push_digits is_digit
digit_runs_from w [] = push_digits w []
digit_runs_from w (c ∷ s) =
    let rest = digit_runs_from (if is_digit c then w ++ c ∷ [] else []) s in
    if is_digit c then rest else push_digits w rest

-- `digitsRE.FindAllString(s, -1)`
unfoldable pub digit_runs : Text → List Text
unfolding digit_runs_from
digit_runs s = digit_runs_from [] s

abbrev pub atoi_limit : ℕ
atoi_limit = 1000000000

-- The loop of `atoi` with the number read so far; it stops behind the first number past the limit.
unfoldable pub atoi_from : ℕ → Text → ℕ
unfolding is_digit
atoi_from n [] = n
atoi_from n (c ∷ s) =
    let m = n * 10 + (c - 48) in
    let rest = atoi_from m s in if is_digit c then (if ltb atoi_limit m then m else rest) else n

unfoldable pub atoi : Text → ℕ
unfolding atoi_from
atoi s = atoi_from 0 s

numbers : List Text → List ℕ
numbers [] = []
numbers (f ∷ fs) = atoi f ∷ numbers fs

-- The numeric fields of a version.
unfoldable pub version_numbers : Text → List ℕ
unfolding numbers
version_numbers s = numbers (digit_runs s)

-- One round of the loop: `rest` is what the later fields say.
unfoldable pub field_sign : ℕ → ℕ → Sign → Sign
field_sign x y rest = if x == y then rest else if ltb x y then minus else plus

-- The loop, with 0 for a field that one side lacks.
unfoldable pub compare_fields : List ℕ → List ℕ → Sign
unfolding field_sign
compare_fields [] [] = same
compare_fields [] (y ∷ ys) = field_sign 0 y (compare_fields [] ys)
compare_fields (x ∷ xs) [] = field_sign x 0 (compare_fields xs [])
compare_fields (x ∷ xs) (y ∷ ys) = field_sign x y (compare_fields xs ys)

unfoldable pub compare_version : Text → Text → Sign
unfolding version_numbers compare_fields
compare_version a b =
    if text_eq a b then same else compare_fields (version_numbers a) (version_numbers b)

pub record VersionCount : Type 0 where
  pub version : Text
  pub count : ℕ

below : VersionCount → VersionCount → Bool
below v w = elim (compare_version v.version w.version) [ minus ↦ true | _ ↦ false ]

-- The inner loop: the new element moves left past what is below it. The sorted part is reversed.
sink : VersionCount → List VersionCount → List VersionCount
unfolding below
sink x [] = x ∷ []
sink x (v ∷ vs) = let rest = sink x vs in if below v x then v ∷ rest else x ∷ v ∷ vs

sort_from : List VersionCount → List VersionCount → List VersionCount
unfolding sink
sort_from done [] = done
sort_from done (x ∷ xs) = sort_from (sink x done) xs

unfoldable pub sort_versions_desc : List VersionCount → List VersionCount
unfolding sort_from
sort_versions_desc vs = reverse (sort_from [] vs)
