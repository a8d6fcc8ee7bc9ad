-- ===== src/Summary/Timings/Tests.antt =====
-- A small summary file, what is read of it, and the theorems at it.
use pti_gpu_itt_only.Base.{◌≡◌, ◌≢◌, ◌⊎◌, refl, List, [], ◌∷◌, none, some}
use pti_gpu_itt_only.Text.{
  Text, codes, text_eq, starts_with, contains, strip, lstrip, rstrip, is_space, split_on,
}
use pti_gpu_itt_only.Summary.Csv.{
  label_in, skip_to, skip_empty, stop_on_empty, csv_row, field, digits, int_of, csv_from,
}
use pti_gpu_itt_only.Summary.Timings.{
  Timing, AllMetrics, FileState, device_section, l0_backend, append_timing, touch_entry,
  push_timing, update_section, record_timing, append_records, read_table, total_of, action,
  finished, failed, unfinished, read_file, read_files,
}
use pti_gpu_itt_only.Summary.Timings.Loops.{read_files-ends}
use pti_gpu_itt_only.Summary.Timings.Records.{HasUnread}
use pti_gpu_itt_only.Summary.Timings.Tables.{IsRead, action-timings_of}

abbrev summary_file : List Text
summary_file =
    codes "=== Device Timing Summary ==="
    ∷ []
    ∷ codes "Total Execution Time (ns): 90"
    ∷ codes "== L0 Backend =="
    ∷ []
    ∷ codes "Kernel, Calls, Time (ns)"
    ∷ codes "\"gemm, big\", 2, 50"
    ∷ codes "copy, 1, 7"
    ∷ []
    ∷ codes "end"
    ∷ []

abbrev no_metrics : AllMetrics
no_metrics = record { host = []; device = []; comm = [] }

abbrev summary_metrics : AllMetrics
summary_metrics = record {
  host = [];
  device =
      (codes "Wallclock", (90, 1) ∷ [])
      ∷ (codes "gemm, big", (50, 2) ∷ [])
      ∷ (codes "copy", (7, 1) ∷ [])
      ∷ [];
  comm = [];
}

summary_is_read : read_files (none ∷ some summary_file ∷ []) no_metrics ≡ finished summary_metrics
unfolding read_files read_file action total_of read_table append_records record_timing
    update_section append_timing touch_entry push_timing csv_from int_of digits field csv_row
    stop_on_empty skip_empty skip_to label_in text_eq starts_with contains strip lstrip rstrip
    is_space split_on
summary_is_read = refl

read_files-ends_example : read_files (some summary_file ∷ []) no_metrics ≢ unfinished
read_files-ends_example = read_files-ends (some summary_file ∷ []) no_metrics

abbrev copies_table : List Text
copies_table =
    codes "Kernel, Calls, Time (ns)"
    ∷ codes "copy, 2, 50"
    ∷ codes "gemm, 4, 9"
    ∷ codes "copy, 1, 7"
    ∷ []
    ∷ codes "end"
    ∷ []

abbrev table_rows : List Text
table_rows = codes "copy, 2, 50" ∷ codes "gemm, 4, 9" ∷ codes "copy, 1, 7" ∷ []

abbrev table_header : List Text
table_header = codes "Kernel" ∷ codes "Calls" ∷ codes "Time (ns)" ∷ []

abbrev before_table : FileState
before_table = record { section = device_section; metrics = summary_metrics; lines = [] }

action-timings_of_example :
    ((records : List (Text × Timing)) × (s' : FileState) × (action l0_backend before_table
          (codes "L0 Backend")
          copies_table
        ≡ some s')
      × IsRead
          (codes "Kernel")
          device_section
          device_section
          summary_metrics
          table_header
          table_rows
          (codes "end" ∷ [])
          (codes "copy")
          records
          s')
    ⊎ ((action l0_backend before_table (codes "L0 Backend") copies_table ≡ none)
        × HasUnread (codes "Kernel") table_header table_rows)
unfolding csv_from stop_on_empty skip_empty split_on strip lstrip rstrip is_space starts_with
action-timings_of_example =
    action-timings_of l0_backend before_table (codes "L0 Backend") copies_table (codes "Kernel")
      table_header table_rows (codes "end" ∷ []) (codes "copy") refl refl

-- A record without a number is an error.
not_a_number : append_records (codes "Kernel") table_header (codes "copy, two, 50" ∷ []) [] ≡ none
unfolding append_records append_timing touch_entry push_timing record_timing int_of digits field
    csv_row text_eq strip lstrip rstrip is_space
not_a_number = refl

-- A table that the file ends in front of.
no_table :
    read_files (some (codes "Device Timing Summary" ∷ codes "L0 Backend" ∷ []) ∷ []) no_metrics
    ≡ failed
unfolding read_files read_file action read_table csv_from skip_empty skip_to label_in contains
    starts_with
no_table = refl

-- Outside all sections a total goes to communication's metrics.
total_of_no_section :
    read_files (some (codes "Total Execution Time: 5" ∷ []) ∷ []) no_metrics
    ≡ finished (record { host = []; device = []; comm = (codes "Wallclock", (5, 1) ∷ []) ∷ [] })
unfolding read_files read_file action total_of update_section append_timing touch_entry push_timing
    int_of digits skip_to label_in text_eq starts_with contains strip lstrip rstrip is_space
    split_on
total_of_no_section = refl
