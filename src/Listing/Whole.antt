-- ===== src/Listing/Whole.antt =====
-- `List` of `tools/unitrace/scripts/metrics/analyzeperfmetrics.py` as a whole: the numbers of the devices,
-- and the lines that are printed of each. How pandas reads the table in a part of the file is a parameter.
use pti_gpu_itt_only.Base.{
  ℕ, ◌+◌, ◌-◌, Bool, true, false, ◌||◌, List, [], ◌∷◌, ◌++◌, map, Option, some, if◌then◌else◌, ◌==◌,
  ◌>>=◌,
}
use pti_gpu_itt_only.Text.{Text, codes, text_eq}
use pti_gpu_itt_only.Asm.Choice.{words_from}
use pti_gpu_itt_only.Charts.Perf.Instance.{PerfRow}
use pti_gpu_itt_only.Sections.{is_banner, find_section}
use pti_gpu_itt_only.Stalls.Report.{digits_of}
use pti_gpu_itt_only.Summary.Csv.{int_of}
use pti_gpu_itt_only.Listing.{sample_columns, stall_columns, count_instances}

-- The numbers in the words of a banner; `none` is the error of a word that is no number behind `#`.
unfoldable pub numbers_in : List Text → Option (List ℕ)
numbers_in [] = some []
numbers_in ([] ∷ words) = numbers_in words
numbers_in ((c ∷ word) ∷ words) =
    let rest = numbers_in words in
    let with_number = (do device ← int_of word; devices ← rest; some (device ∷ devices)) in
    if c == b'#' then with_number else rest

-- `devices`
unfoldable pub device_numbers : List Text → Option (List ℕ)
device_numbers [] = some []
device_numbers (row ∷ rows) =
    let rest = device_numbers rows in
    let with_banner = (do
      here ← numbers_in (words_from false row)
      devices ← rest
      some (here ++ devices)) in
    if is_banner row then with_banner else rest

abbrev pub number : ℕ → Text
number n = digits_of (n + 1) n

-- `device_banner`
abbrev pub banner_of : ℕ → Text
banner_of device = codes "=== Device #" ++ (number device ++ codes " Metrics ===")

-- `kernel not in kernels`
unfoldable pub is_listed : Text → List Text → Bool
is_listed kernel [] = false
is_listed kernel (other ∷ kernels) = text_eq other kernel || is_listed kernel kernels

-- The loop that gathers the kernels of a table of stalls.
unfoldable pub distinct_kernels : List Text → List Text → List Text
distinct_kernels [] kernels = kernels
distinct_kernels (kernel ∷ rows) kernels =
    distinct_kernels rows (if is_listed kernel kernels then kernels else kernels ++ kernel ∷ [])

-- A table: its columns, its rows of samples, and the kernels of its rows of stalls.
pub record Table {ℓ} (Cells : Type ℓ) : Type ℓ where
  pub columns : List Text
  pub samples : List (PerfRow Cells)
  pub stalls : List Text

abbrev pub metric_line : Text → Text
metric_line m = codes "        " ++ m

abbrev pub instances_line : Text × ℕ → Text
instances_line (kernel, instances) =
    codes "        \"" ++ (kernel ++ (codes "\", " ++ number instances))

abbrev pub kernel_line : Text → Text
kernel_line kernel = codes "        \"" ++ (kernel ++ codes "\"")

module _ {ℓ} {Cells : Type ℓ} (read_csv : ℕ → ℕ → Table Cells) where
  -- The lines behind `Metric`.
  unfoldable pub table_lines : Bool → Table Cells → List Text
  table_lines false df =
      map metric_line (sample_columns df.columns)
      ++ (codes "    Kernel, Number of Instances"
          ∷ map instances_line (count_instances df.samples [] []))
  table_lines true df =
      map metric_line (stall_columns df.columns)
      ++ (codes "    Kernel" ∷ map kernel_line (distinct_kernels df.stalls []))

  -- One device.
  unfoldable pub device_lines : List Text → ℕ → List Text
  device_lines rows device =
      let s = find_section (banner_of device) rows in
      (codes "Device " ++ number device)
      ∷ codes "    Metric"
      ∷ table_lines s.eustall (read_csv s.header (s.linenum - s.header - 1))

  unfoldable pub all_device_lines : List Text → List ℕ → List Text
  all_device_lines rows [] = []
  all_device_lines rows (device ∷ devices) =
      device_lines rows device ++ all_device_lines rows devices

  -- `List`, of the rows of the input file.
  unfoldable pub list : List Text → Option (List Text)
  list rows = do devices ← device_numbers rows; some (all_device_lines rows devices)
