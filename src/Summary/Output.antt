-- ===== src/Summary/Output.antt =====
-- `aprocess` of `tools/unitrace/scripts/summary/summary.py`: the output by category, and the aggregators
-- `min_p_1` and `max_m_1`.
pub mod Values
pub mod Ranks
mod Tests
use pti_gpu_itt_only.Base.{
  ℕ, ◌+◌, ◌/◌, leb, Bool, List, [], ◌∷◌, ◌++◌, Option, none, some, if◌then◌else◌, length, map,
  ◌>>=◌,
}
use pti_gpu_itt_only.Text.{Text, codes, text_eq}
use pti_gpu_itt_only.Summary.{Tree, found, key_error, out_of_fuel, categorize}
use pti_gpu_itt_only.Summary.Config.{without_spaces}
use pti_gpu_itt_only.Summary.Timings.{Metrics, AllMetrics}

-- `output[sub_category] += value`, or its first value.
unfoldable pub add_output : Text → ℕ → List (Text × ℕ) → List (Text × ℕ)
add_output sub_category value [] = (sub_category, value) ∷ []
add_output sub_category value ((other, total) ∷ output) =
    if text_eq other sub_category
    then (other, total + value) ∷ output
    else (other, total) ∷ add_output sub_category value output

-- The loop over the names of a section. The aggregator's values are whole numbers here. `categorized` is
-- `categorize` with the schema's trees and the section's default; `none` is its error.
module _ (aggregator : List ℕ → ℕ) (categorized : Text → Option Text) where
  unfoldable pub add_metrics : Metrics → List (Text × ℕ) → Option (List (Text × ℕ))
  add_metrics [] output = some output
  add_metrics ((name, timings) ∷ table) output = elim (categorized name) [
    | none ↦ none
    | some [] ↦ add_metrics table output
    | some (c ∷ category) ↦ add_metrics table (
        add_output (c ∷ category ++ codes "_calls") (aggregator (map (λ t. t.1) timings))
          (add_output (c ∷ category ++ codes "_time") (aggregator (map (λ t. t.0) timings)) output))
  ]

-- The category of a name, without its spaces where the schema says so; `none` is a `KeyError`. The fuel is
-- enough for trees whose key lengths are not 0, as each round then takes a character at least; a search of
-- another tree that goes on counts as an error too.
unfoldable pub categorized : Bool → Tree → Tree → Text → Text → Option Text
categorized ignore_spaces direct backward default name =
    let tag = if ignore_spaces then without_spaces name else name in
    elim (categorize (length tag + 1) direct backward tag default) [
      | found (some category) ↦ some category
      | _ ↦ none
    ]

-- The output of both sections.
unfoldable pub timings_output :
    (List ℕ → ℕ) → Bool → Tree → Tree → AllMetrics → Option (List (Text × ℕ))
timings_output aggregator ignore_spaces direct backward m = do
  output ←
      add_metrics aggregator (categorized ignore_spaces direct backward (codes "device")) m.device
        []
  add_metrics aggregator (categorized ignore_spaces direct backward (codes "comm")) m.comm output

unfoldable pub insert_value : ℕ → List ℕ → List ℕ
insert_value x [] = x ∷ []
insert_value x (y ∷ ys) = let rest = insert_value x ys in if leb x y then x ∷ y ∷ ys else y ∷ rest

-- `sorted( val_iter )`
unfoldable pub sorted : List ℕ → List ℕ
sorted [] = []
sorted (x ∷ xs) = insert_value x (sorted xs)

-- `min_p_1`, on whole numbers.
unfoldable pub min_p_1 : List ℕ → ℕ
min_p_1 val_iter = elim (sorted val_iter) [
  | [] ↦ 0
  | x ∷ [] ↦ x
  | x ∷ y ∷ [] ↦ (x + y) / 2
  | x ∷ y ∷ z ∷ values ↦ y
]

abbrev pub last_but_one : ℕ → ℕ → List ℕ → ℕ
last_but_one x y [] = x
last_but_one x y (z ∷ values) = last_but_one y z values

-- `max_m_1`, on whole numbers.
unfoldable pub max_m_1 : List ℕ → ℕ
max_m_1 val_iter = elim (sorted val_iter) [
  | [] ↦ 0
  | x ∷ [] ↦ x
  | x ∷ y ∷ [] ↦ (x + y) / 2
  | x ∷ y ∷ z ∷ values ↦ last_but_one y z values
]
