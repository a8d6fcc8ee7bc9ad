-- ===== src/Listing/Tests.antt =====
-- A small table, and the theorem at it.
use pti_gpu_itt_only.Base.{ℕ, List, [], ◌∷◌, ◌≡◌, refl, arith, none, some, if◌then◌else◌}
use pti_gpu_itt_only.Text.{
  Text, codes, text_eq, contains, starts_with, strip, lstrip, rstrip, is_space,
}
use pti_gpu_itt_only.Asm.Choice.{words_from}
use pti_gpu_itt_only.Sections.{
  is_banner, is_header, is_stall_header, on_banner, on_header, scan_rows, find_section,
}
use pti_gpu_itt_only.Stalls.Report.{digits_of}
use pti_gpu_itt_only.Summary.Csv.{int_of, digits}
use pti_gpu_itt_only.Listing.Whole.{
  numbers_in, device_numbers, is_listed, distinct_kernels, Table, table_lines, device_lines,
  all_device_lines, list,
}
use pti_gpu_itt_only.Listing.Kernels.{times, times-distinct_kernels}
use pti_gpu_itt_only.Charts.Perf.All.Ended.{Instance, table_of}
use pti_gpu_itt_only.Listing.{
  count_instances, note_ended, has_key, add_one, sample_columns, stall_columns,
}
use pti_gpu_itt_only.Listing.Counts.{count_of, instances_named, count_of-count_instances}

abbrev one_of : Text → Instance ℕ
one_of kernel = record { kernel = kernel; cells = 1; others = (kernel, 2) ∷ []; blank = 0 }

abbrev three : List (Instance ℕ)
three = one_of (codes "f") ∷ one_of (codes "g") ∷ one_of (codes "f") ∷ []

count_of-count_instances_example :
    count_of (codes "f") (count_instances (table_of three ((codes "f", 3) ∷ [])) [] [])
    ≡ instances_named (codes "f") three
count_of-count_instances_example =
    count_of-count_instances (codes "f") three ((codes "f", 3) ∷ [])
      (ground arith, (ground arith, (ground arith, tt)))

listed_counts :
    count_instances (table_of three ((codes "f", 3) ∷ [])) [] []
    ≡ (codes "f", 2) ∷ (codes "g", 1) ∷ []
unfolding count_instances note_ended has_key add_one text_eq
listed_counts = refl

listed_columns :
    sample_columns (codes "Kernel" ∷ codes "GpuTime[ns]" ∷ codes "StreamMarker" ∷ codes "x" ∷ [])
    ≡ codes "GpuTime[ns]" ∷ codes "StreamMarker" ∷ []
unfolding sample_columns text_eq
listed_columns = refl

listed_stall_columns :
    stall_columns
      (codes "Kernel" ∷ codes "IP[Address]" ∷ codes "OtherStall[Events]" ∷ codes "x" ∷ [])
    ≡ codes "OtherStall[Events]" ∷ []
unfolding stall_columns text_eq
listed_stall_columns = refl

abbrev stall_kernels : List Text
stall_kernels = codes "f" ∷ codes "g" ∷ codes "f" ∷ []

times-distinct_kernels_example :
    times (codes "f") (distinct_kernels stall_kernels [])
    ≡ (if is_listed (codes "f") stall_kernels then 1 else 0)
times-distinct_kernels_example = times-distinct_kernels (codes "f") stall_kernels

-- Every part of the file is read as the same table.
abbrev one_table : ℕ → ℕ → Table ℕ
one_table header nrows = record {
  columns = codes "Kernel" ∷ codes "StreamMarker" ∷ [];
  samples = (some (codes "f"), 0) ∷ (none, 0) ∷ [];
  stalls = [];
}

one_device :
    list one_table (codes "=== Device #12 Metrics ===" ∷ codes "Kernel,StreamMarker" ∷ [])
    ≡ some (
        codes "Device 12"
        ∷ codes "    Metric"
        ∷ codes "        StreamMarker"
        ∷ codes "    Kernel, Number of Instances"
        ∷ codes "        \"f\", 1"
        ∷ [])
unfolding list all_device_lines device_lines table_lines device_numbers numbers_in is_banner
    find_section scan_rows on_banner on_header is_header is_stall_header words_from is_space
    contains starts_with digits_of int_of digits strip lstrip rstrip sample_columns count_instances
    note_ended has_key add_one text_eq
one_device = refl
