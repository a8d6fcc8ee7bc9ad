-- ===== src/Roofline/Tests.antt =====
-- Small page and profile texts, runs of the scripts on them, and the theorems at them.
use pti_gpu_itt_only.Base.{ℕ, ◌≡◌, refl, true, List, [], ◌∷◌, ◌++◌, some, length}
use pti_gpu_itt_only.Text.{
  Text, codes, text_eq, contains, starts_with, strip, lstrip, rstrip, is_space,
}
use pti_gpu_itt_only.Roofline.Lines.{
  mem_text, join, gather, read_line, read_lines, file_to_json, file_to_json_old,
}
use pti_gpu_itt_only.Roofline.Lines.Same.{file_to_json-file_to_json_old}
use pti_gpu_itt_only.Roofline.Html.{find, start_index, cut_at, add_to_html}
use pti_gpu_itt_only.Roofline.Html.Insert.{add_to_html-bracket}
use pti_gpu_itt_only.Roofline.Report.{
  Pandas, Entry, entry_of, in_fp16_xmx, flops_of, total_flops, best_of, precision_of,
}

abbrev profile : List Text
profile =
    codes "Device 0"
    ∷ codes "== ComputeBasic Metrics =="
    ∷ codes "Kernel, GpuTime[ns]"
    ∷ codes "gemm SIMD32, 10 "
    ∷ codes "gemm SIMD32, 10"
    ∷ codes "copy SIMD16, 3"
    ∷ []

profile_is_read :
    file_to_json profile ≡ codes "Kernel, GpuTime[ns]\ngemm SIMD32, 10\ncopy SIMD16, 3"
unfolding file_to_json read_lines read_line gather mem_text join text_eq contains starts_with strip
    lstrip rstrip is_space
profile_is_read = refl

file_to_json-file_to_json_old_example : file_to_json profile ≡ file_to_json_old profile
file_to_json-file_to_json_old_example = file_to_json-file_to_json_old profile

add_to_html-bracket_example :
    add_to_html
      ((codes "name: " ++ codes "L3_ROOF") ++ (codes ", points: [" ++ (codes "]" ++ codes "]")))
      (codes "L3_ROOF")
      (codes "p" ∷ [])
    ≡ ((codes "name: " ++ codes "L3_ROOF") ++ codes ", points: [")
      ++ (join (codes ",\n\t\t") (codes "p" ∷ []) ++ (codes "]" ++ codes "]"))
unfolding find starts_with
add_to_html-bracket_example =
    add_to_html-bracket (codes "name: ") (codes "L3_ROOF") (codes ", points: [") (codes "]")
      (codes "p" ∷ []) refl refl

-- A page without the mark: the search goes on from its beginning.
no_mark : add_to_html (codes "a[]b[]") (codes "L") (codes "p" ∷ []) ≡ codes "a[p]b[]"
unfolding add_to_html find start_index cut_at starts_with join
no_mark = refl

-- Every table has one kernel, and every sum is the length of the table's text.
abbrev one_kernel : Pandas Text ℕ
one_kernel = record {
  read_csv = some;
  sorted_kernels = λ df. codes "gemm" ∷ [];
  total_gpu_time = λ df. length df;
  has_kernel = λ df kernel. true;
  sum_of = λ df column kernel. length df;
  mean_of = λ df column kernel. 1;
}

abbrev one_entry : Entry ℕ
one_entry = entry_of one_kernel (codes "ab") (codes "abc") (codes "gemm")

-- 3 instructions of 512 operations each are more than 3 of 64.
mostly_xmx : precision_of (one_entry ∷ []) ≡ in_fp16_xmx
unfolding entry_of flops_of total_flops best_of precision_of
mostly_xmx = refl
