-- ===== src/Roofline/Html.antt =====
-- `add_to_html` of `tools/unitrace/scripts/roofline/roofline_libs.py`. The points are given as their texts.
pub mod Insert
use pti_gpu_itt_only.Base.{
  ℕ, zero, suc, ◌+◌, ◌-◌, Bool, true, false, List, [], ◌∷◌, ◌++◌, Option, none, some, if◌then◌else◌,
  length, take, drop,
}
use pti_gpu_itt_only.Text.{Text, codes, starts_with}
use pti_gpu_itt_only.Roofline.Lines.{join}

-- `s.find( part )`, with `none` for `-1`.
unfoldable pub find : Text → Text → Option ℕ
find [] part = if starts_with [] part then some 0 else none
find (c ∷ s) part =
    let later = find s part in
    if starts_with (c ∷ s) part then some 0 else elim later [ none ↦ none | some n ↦ some (suc n) ]

-- `html_str.find( sep ) + len( sep )`
unfoldable pub start_index : Text → Text → ℕ
start_index html_str sep = elim (find html_str sep) [
  | none ↦ length sep - 1
  | some n ↦ n + length sep
]

-- `html_str[: end_index]` and `html_str[end_index :]`, where `-1` counts from the end.
unfoldable pub cut_at : Text → ℕ → Text × Text
cut_at html_str start = elim (find (drop start html_str) (codes "]")) [
  | none ↦ (take (length html_str - 1) html_str, drop (length html_str - 1) html_str)
  | some n ↦ (take (start + n) html_str, drop (start + n) html_str)
]

unfoldable pub add_to_html : Text → Text → List Text → Text
add_to_html html_str sep data_to_add =
    let (before, behind) = cut_at html_str (start_index html_str sep) in
    before ++ (join (codes ",\n\t\t") data_to_add ++ behind)
