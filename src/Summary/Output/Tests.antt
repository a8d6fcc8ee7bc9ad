-- ===== src/Summary/Output/Tests.antt =====
-- Small metrics, their output, and the theorems at them.
use pti_gpu_itt_only.Base.{
  ℕ, ◌+◌, ◌≤◌, ◌≡◌, refl, arith, false, List, [], ◌∷◌, ltb, leb, none, some,
}
use pti_gpu_itt_only.Text.{Text, codes, text_eq}
use pti_gpu_itt_only.Summary.{Tree, leaf, node, no_child, child, child_of, search_tree, categorize}
use pti_gpu_itt_only.Summary.Timings.{AllMetrics}
use pti_gpu_itt_only.Summary.Output.{
  add_output, add_metrics, categorized, timings_output, insert_value, sorted, min_p_1, max_m_1,
}
use pti_gpu_itt_only.Summary.Output.Values.{value_of, sum_of, value_of-timings_output}
use pti_gpu_itt_only.Summary.Output.Ranks.{count, min_p_1-second}

abbrev some_metrics : AllMetrics
some_metrics = record {
  host = [];
  device = (codes "ab1", (50, 2) ∷ (60, 1) ∷ []) ∷ (codes "ab2", (7, 1) ∷ []) ∷ [];
  comm = (codes "send", (3, 4) ∷ []) ∷ [];
}

abbrev one_tag : Tree
one_tag = node none (some 2) (child (codes "ab") (leaf (some (codes "gemm")) none) no_child)

abbrev sum : List ℕ → ℕ
sum [] = 0
sum (x ∷ xs) = x + sum xs

abbrev some_output : List (Text × ℕ)
some_output =
    (codes "gemm_time", 117)
    ∷ (codes "gemm_calls", 4)
    ∷ (codes "comm_time", 3)
    ∷ (codes "comm_calls", 4)
    ∷ []

output_is_made : timings_output sum false one_tag (leaf none none) some_metrics ≡ some some_output
unfolding timings_output add_metrics categorized add_output categorize search_tree child_of text_eq
output_is_made = refl

value_of-timings_output_example :
    value_of (codes "gemm_time") some_output
    ≡ sum_of sum
        (categorized false one_tag (leaf none none) (codes "comm"))
        (codes "gemm_time")
        some_metrics.comm
      + sum_of sum
          (categorized false one_tag (leaf none none) (codes "device"))
          (codes "gemm_time")
          some_metrics.device
value_of-timings_output_example =
    value_of-timings_output sum false one_tag (leaf none none) some_metrics (codes "gemm_time")
      some_output output_is_made

abbrev four_values : List ℕ
four_values = 8 ∷ 3 ∷ 5 ∷ 3 ∷ []

ranks : (min_p_1 four_values ≡ 3) × (max_m_1 four_values ≡ 5)
unfolding min_p_1 max_m_1 sorted insert_value
ranks = (refl, refl)

min_p_1-second_example :
    (count (λ v. ltb v (min_p_1 four_values)) four_values ≤ 1)
    × (2 ≤ count (λ v. leb v (min_p_1 four_values)) four_values)
min_p_1-second_example = min_p_1-second four_values (omega arith)
