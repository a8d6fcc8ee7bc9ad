-- ===== src/Charts/Perf/Instance.antt =====
-- The charts of one instance, and the search for it.
pub mod Blocks
pub mod Search
use pti_gpu_itt_only.Base.{
  ℕ, zero, suc, ◌+◌, Bool, true, false, not, ◌&&◌, ◌||◌, List, [], ◌∷◌, ◌++◌, Option, none, some,
  if◌then◌else◌, length, slice, ◌==◌,
}
use pti_gpu_itt_only.Text.{Text, codes, text_eq, strip, split}
use pti_gpu_itt_only.Charts.{Kind, kind_of, or_end}

-- A row of the table: the kernel's name, unless the row is blank, and the other cells.
abbrev pub PerfRow {ℓ} : Type ℓ → Type ℓ
PerfRow Cells = Option Text × Cells

-- A chart: the columns, the rows whose cells it shows, the label of the y axis and the title's
-- kernel. A chart of throughputs shows the quotients of the columns by `GpuTime[ns]`.
pub data PerfChart {ℓ} (Cells : Type ℓ) : Type ℓ where
  metric_chart : Kind → List Text → List (PerfRow Cells) → Text → Text → PerfChart Cells
  throughput_chart : Kind → List Text → List (PerfRow Cells) → Text → PerfChart Cells

-- The columns of each chart, checked, or the one that the table does not have.
pub data Cleansed : Type 0 where
  cleansed : List (List Text) → Cleansed
  missing : Text → Cleansed

unfoldable pub has_column : List Text → Text → Bool
has_column [] name = false
has_column (column ∷ columns) name = text_eq column name || has_column columns name

-- One set of names, without the white space around them.
unfoldable pub cleanse_names : List Text → List Text → Cleansed
cleanse_names columns [] = cleansed ([] ∷ [])
cleanse_names columns (name ∷ names) =
    let rest = cleanse_names columns names in
    if has_column columns (strip name)
    then elim rest [
      | missing other ↦ missing other
      | cleansed [] ↦ cleansed []
      | cleansed (set ∷ more) ↦ cleansed ((strip name ∷ set) ∷ more)
    ]
    else missing name

unfoldable pub cleanse : List Text → List Text → Cleansed
cleanse columns [] = cleansed []
cleanse columns (set ∷ others) = elim (cleanse_names columns (split set (codes ","))) [
  | missing name ↦ missing name
  | cleansed this ↦ elim (cleanse columns others) [
    | missing name ↦ missing name
    | cleansed more ↦ cleansed (this ++ more)
  ]
]

abbrev pub is_kernel : Text → Option Text → Bool
is_kernel kernel none = false
is_kernel kernel (some name) = text_eq name kernel

-- The variables `k`, `counting`, and `start` once the instance is found.
pub record Count : Type 0 where
  pub k : ℕ
  pub counting : Bool
  pub start : Option ℕ

-- A row with a kernel's name.
unfoldable pub count_row : Text → ℕ → ℕ → Text → Count → Count
count_row kernel instance_number index name s =
    if text_eq name kernel && s.counting
    then record s {
      k = s.k + 1;
      counting = false;
      start = if s.k + 1 == instance_number then some index else s.start;
    }
    else s

abbrev pub start_count : Count
start_count = record { k = 0; counting = true; start = none }

module _ {ℓ} {Cells : Type ℓ} where
  -- The loop over `zip(metric_sets_cleansed, args.ylabel)`.
  unfoldable pub plot_metrics :
      Text → List (PerfRow Cells) → List (List Text) → List Text → List (PerfChart Cells)
  plot_metrics kernel [] sets labels = []
  plot_metrics kernel (row ∷ rows) (set ∷ sets) (label ∷ labels) =
      metric_chart (kind_of (row ∷ rows)) set (row ∷ rows) label kernel
      ∷ plot_metrics kernel (row ∷ rows) sets labels
  plot_metrics kernel (row ∷ rows) _ _ = []

  -- The loop over `throughputs_sets_cleansed`, each without its first column, `GpuTime[ns]`.
  unfoldable pub plot_throughputs :
      Text → List (PerfRow Cells) → List (List Text) → List (PerfChart Cells)
  plot_throughputs kernel [] sets = []
  plot_throughputs kernel (row ∷ rows) [] = []
  plot_throughputs kernel (row ∷ rows) (set ∷ sets) =
      throughput_chart (kind_of (row ∷ rows)) set (row ∷ rows) kernel
      ∷ plot_throughputs kernel (row ∷ rows) sets

  -- All charts of an instance: the throughputs only if a metric was charted.
  unfoldable pub plot_instance :
      List (List Text)
      → List Text
      → List (List Text)
      → Text
      → List (PerfRow Cells)
      → List (PerfChart Cells)
  plot_instance sets labels throughputs kernel rows = elim (plot_metrics kernel rows sets labels) [
    | [] ↦ []
    | chart ∷ charts ↦ (chart ∷ charts) ++ plot_throughputs kernel rows throughputs
  ]

  -- The loop over the table: where the instance starts, and where it stops unless that is the end.
  unfoldable pub find_instance : Text → ℕ → ℕ → List (PerfRow Cells) → Count → Option ℕ × Option ℕ
  find_instance kernel instance_number index [] s = (s.start, none)
  find_instance kernel instance_number index ((some name, cells) ∷ rows) s =
      find_instance kernel instance_number (index + 1) rows
        (count_row kernel instance_number index name s)
  find_instance kernel instance_number index ((none, cells) ∷ rows) s = elim s.start [
    | some start ↦ (some start, some index)
    | none ↦ find_instance kernel instance_number (index + 1) rows (record s { counting = true })
  ]

  -- `df[start : stop]`, if the instance is found.
  unfoldable pub instance_rows : Text → ℕ → List (PerfRow Cells) → Option (List (PerfRow Cells))
  instance_rows kernel instance_number df =
      let (begun, stop) = find_instance kernel instance_number 0 df start_count in
      elim begun [ none ↦ none | some start ↦ some (slice start (or_end stop (length df)) df) ]
