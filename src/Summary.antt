-- ===== src/Summary.antt =====
-- `search_tree` and `categorize` of `tools/unitrace/scripts/summary/summary.py`: a function's name is
-- looked up in a tree of tags, which `categorize.py` writes as JSON.
pub mod Search
pub mod Ends
pub mod Tags
pub mod Config
pub mod Csv
pub mod Timings
pub mod Output
mod Tests
use mathlib.Core.List.{reverse}
use pti_gpu_itt_only.Base.{
  ℕ, zero, suc, Bool, true, false, List, [], ◌∷◌, Option, none, some, if◌then◌else◌, length, take,
  drop, ltb,
}
use pti_gpu_itt_only.Text.{Text, text_eq}

-- A dictionary of the schema: its `category` and its `length`, where they are there, and its `next`,
-- which a leaf does not have.
mutual
  pub data Tree : Type 0 where
    leaf : Option Text → Option ℕ → Tree
    node : Option Text → Option ℕ → Children → Tree

  pub data Children : Type 0 where
    no_child : Children
    child : Text → Tree → Children → Children

unfoldable pub child_of : Text → Children → Option Tree
child_of key no_child = none
child_of key (child other tree children) =
    if text_eq other key then some tree else child_of key children

-- How a search ends: with a category or none, with a `KeyError`, or not within the fuel.
pub data Found : Type 0 where
  found : Option Text → Found
  key_error : Found
  out_of_fuel : Found

abbrev pub or_category : Option Text → Option Text → Option Text
or_category none category = category
or_category (some own) category = some own

abbrev pub category_of : Tree → Option Text
category_of (leaf own key_length) = own
category_of (node own key_length children) = own

-- `next_nodes['']['category']`
unfoldable pub exact_category : Children → Found
exact_category children = elim (child_of [] children) [
  | none ↦ key_error
  | some tree ↦ elim (category_of tree) [ none ↦ key_error | some category ↦ found (some category) ]
]

-- The `while` loop: `category` is that of the tags met so far.
unfoldable pub search_tree : ℕ → Tree → Text → Option Text → Found
search_tree zero tree tag category = out_of_fuel
search_tree (suc fuel) (leaf own key_length) [] category = found (or_category own category)
search_tree (suc fuel) (node own key_length children) [] category = exact_category children
search_tree (suc fuel) (leaf own none) (c ∷ tag) category = found (or_category own category)
search_tree (suc fuel) (node own none children) (c ∷ tag) category =
    found (or_category own category)
search_tree (suc fuel) (leaf own (some n)) (c ∷ tag) category =
    if ltb (length (c ∷ tag)) n then found (or_category own category) else key_error
search_tree (suc fuel) (node own (some n) children) (c ∷ tag) category =
    elim (ltb (length (c ∷ tag)) n) [
      | true ↦ found (or_category own category)
      | false ↦ elim (child_of (take n (c ∷ tag)) children) [
        | none ↦ found (or_category own category)
        | some tree ↦ search_tree fuel tree (drop n (c ∷ tag)) (or_category own category)
      ]
    ]

-- `categorize`: by the name's beginning, or else by its end, or else the default.
unfoldable pub categorize : ℕ → Tree → Tree → Text → Text → Found
categorize fuel direct backward name default = elim (search_tree fuel direct name none) [
  | out_of_fuel ↦ out_of_fuel
  | key_error ↦ key_error
  | found (some category) ↦ found (some category)
  | found none ↦ elim (search_tree fuel backward (reverse name) none) [
    | out_of_fuel ↦ out_of_fuel
    | key_error ↦ key_error
    | found (some category) ↦ found (some category)
    | found none ↦ found (some default)
  ]
]
