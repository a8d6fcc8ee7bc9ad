-- ===== src/Summary/Output/Values.antt =====
-- The values that `aprocess` adds up by category.
use pti_gpu_itt_only.Base.{
  ℕ, ◌+◌, ◌≡◌, refl, arith, Bool, List, [], ◌∷◌, ◌++◌, map, Option, none, some, if◌then◌else◌,
  Option-cases, inl, inr,
}
use pti_gpu_itt_only.Text.{Text, codes, text_eq, text_eq_iff}
use pti_gpu_itt_only.Summary.{Tree}
use pti_gpu_itt_only.Summary.Timings.{Timing, Metrics, AllMetrics}
use pti_gpu_itt_only.Summary.Output.{add_output, add_metrics, categorized, timings_output}

-- The value of a sub-category, 0 where it is missing.
abbrev pub value_of : Text → List (Text × ℕ) → ℕ
value_of key [] = 0
value_of key ((other, value) ∷ output) = if text_eq other key then value else value_of key output

value_of-add_output :
    (key sub_category : Text) (value : ℕ) (output : List (Text × ℕ))
    → value_of key (add_output sub_category value output)
      ≡ (if text_eq sub_category key then value else 0) + value_of key output
unfolding add_output
value_of-add_output key sub_category value [] = ground arith
value_of-add_output key sub_category value ((other, total) ∷ output) = ground (
  arith,
  text_eq_iff other sub_category,
  text_eq_iff other key,
  text_eq_iff sub_category key,
  value_of-add_output key sub_category value output,
)

module _ (aggregator : List ℕ → ℕ) (categorized : Text → Option Text) where
  -- What a name of the category adds to a sub-category.
  abbrev pub of_category : Text → List Timing → Option Text → ℕ
  of_category key timings none = 0
  of_category key timings (some []) = 0
  of_category key timings (some (c ∷ category)) =
      (if text_eq (c ∷ category ++ codes "_time") key
        then aggregator (map (λ t. t.0) timings)
        else 0)
      + (if text_eq (c ∷ category ++ codes "_calls") key
          then aggregator (map (λ t. t.1) timings)
          else 0)

  -- The sum, over the names of a section, of what each adds to a sub-category.
  abbrev pub sum_of : Text → Metrics → ℕ
  sum_of key [] = 0
  sum_of key ((name, timings) ∷ table) =
      of_category key timings (categorized name) + sum_of key table

  value_of-step :
      (key : Text) (name : Text) (timings : List Timing) (table : Metrics)
      (output output' : List (Text × ℕ)) (category : Option Text)
      → categorized name ≡ category
      → add_metrics aggregator categorized ((name, timings) ∷ table) output ≡ some output'
      → ((o : List (Text × ℕ))
          → add_metrics aggregator categorized table o ≡ some output'
          → value_of key output' ≡ sum_of key table + value_of key o)
      → value_of key output'
        ≡ (of_category key timings category + sum_of key table) + value_of key output
  unfolding add_metrics
  value_of-step key name timings table output output' none e h more =
      absurd (ground (arith, rw (e, add_metrics) at h))
  value_of-step key name timings table output output' (some []) e h more =
      omega (arith, more output (rw (e, add_metrics) at h))
  value_of-step key name timings table output output' (some (c ∷ category)) e h more =
      let time = aggregator (map (λ t. t.0) timings) in
      let calls = aggregator (map (λ t. t.1) timings) in
      let with_time = add_output (c ∷ category ++ codes "_time") time output in
      omega (
        arith,
        more (add_output (c ∷ category ++ codes "_calls") calls with_time)
            (rw (e, add_metrics) at h),
        value_of-add_output key (c ∷ category ++ codes "_calls") calls with_time,
        value_of-add_output key (c ∷ category ++ codes "_time") time output,
      )

  pub value_of-add_metrics :
      (key : Text) (table : Metrics) (output output' : List (Text × ℕ))
      → add_metrics aggregator categorized table output ≡ some output'
      → value_of key output' ≡ sum_of key table + value_of key output
  unfolding add_metrics
  value_of-add_metrics key [] output output' h =
      let same : output ≡ output' = cc h in rw (← same) (omega arith)
  value_of-add_metrics key ((name, timings) ∷ table) output output' h =
      value_of-step key name timings table output output' (categorized name) refl h
        (λ o. value_of-add_metrics key table o output')

-- If the output is made without an error, the value of any sub-category in it is the sum of the
-- aggregated times of the names, of the device and of communication, whose category it is the time of, and
-- of the aggregated numbers of calls of those whose category it is the number of calls of.
pub value_of-timings_output :
    (aggregator : List ℕ → ℕ) (ignore_spaces : Bool) (direct backward : Tree) (m : AllMetrics)
    (key : Text) (output : List (Text × ℕ))
    → timings_output aggregator ignore_spaces direct backward m ≡ some output
    → value_of key output
      ≡ sum_of aggregator (categorized ignore_spaces direct backward (codes "comm")) key m.comm
        + sum_of aggregator
            (categorized ignore_spaces direct backward (codes "device"))
            key
            m.device
unfolding timings_output
value_of-timings_output aggregator ignore_spaces direct backward m key output h =
    elim (Option-cases (
      add_metrics aggregator (categorized ignore_spaces direct backward (codes "device")) m.device
        [])) [
          | inl e ↦ absurd (ground (arith, rw e at h))
          | inr (first, e) ↦ omega (
            arith,
            value_of-add_metrics aggregator
                (categorized ignore_spaces direct backward (codes "device")) key m.device [] first
                e,
            value_of-add_metrics aggregator
                (categorized ignore_spaces direct backward (codes "comm")) key m.comm first output
                (rw e at h),
          )
        ]
