-- ===== src/Charts/Tests.antt =====
-- Small tables, and the theorems at them.
use pti_gpu_itt_only.Base.{
  ℕ, ◌≡◌, ◌-◌, ◌/◌, ◌+◌, ◌&&◌, refl, arith, true, List, [], ◌∷◌, ◌++◌, none, some, All, length,
  get_elem?,
}
use pti_gpu_itt_only.Text.{Text, codes, text_eq}
use pti_gpu_itt_only.Charts.Paging.{StallRow, charts_of, labels_of, ticks_from}
use pti_gpu_itt_only.Charts.Paging.Laws.{all_rows, all_ticks, all_labels, FitsPage, charts_of-pages}
use pti_gpu_itt_only.Charts.Stalls.{close_files, all_kernels, no_out, kernel_rows, find_rows}
use pti_gpu_itt_only.Charts.Stalls.Runs.{Run, rows_of, IsRuns, draw_runs, all_kernels-IsRuns}
use pti_gpu_itt_only.Charts.Perf.Instance.{
  plot_instance, plot_metrics, plot_throughputs, PerfRow, instance_rows, find_instance, count_row,
}
use pti_gpu_itt_only.Charts.Perf.Instance.Blocks.{instances_of, blocks_of}
use pti_gpu_itt_only.Charts.Perf.Instance.Search.{instance_rows-instances_of}
use pti_gpu_itt_only.Charts.Perf.All.{
  kernel_instances, last_instance, draw_numbered, save_charts, rounds, charts_in, plot_rows,
  plotted, raised, no_plots,
}
use pti_gpu_itt_only.Charts.Perf.All.Ended.{
  Instance, table_of, draw_instances, plot_rows-draw_instances, named_rows,
}
use pti_gpu_itt_only.Charts.Perf.All.Raised.{plot_rows_raised, plots_of}

abbrev stalled_at : Text → Text → ℕ → StallRow
stalled_at kernel ip sbid = record {
  kernel = kernel;
  ip = ip;
  control = 0;
  pipe = 0;
  send = 0;
  dist = 0;
  sbid = sbid;
  sync = 0;
  instr_fetch = 0;
  other = 0;
}

abbrev f_rows : List StallRow
f_rows = stalled_at (codes "f") (codes "0x0") 1 ∷ stalled_at (codes "f") (codes "0x8") 2 ∷ []

charts_of-pages_example :
    (length (charts_of (codes "f") f_rows) ≡ (length f_rows + 99) / 100)
    × (all_rows (charts_of (codes "f") f_rows) ≡ f_rows)
    × (all_ticks (charts_of (codes "f") f_rows) ≡ ticks_from 0 f_rows)
    × (all_labels (charts_of (codes "f") f_rows) ≡ labels_of f_rows)
    × All (FitsPage (codes "f")) (charts_of (codes "f") f_rows)
charts_of-pages_example = charts_of-pages (codes "f") f_rows (omega arith)

abbrev echoed : Text → List StallRow → Text
echoed kernel rows = kernel

abbrev mixed_rows : List StallRow
mixed_rows = stalled_at (codes "g") (codes "0x0") 0 ∷ f_rows

all_kernels-IsRuns_example :
    (runs : List Run) × (rows_of runs ≡ mixed_rows)
    × IsRuns runs
    × (all_kernels echoed true true mixed_rows
        ≡ close_files (true && true) (draw_runs echoed true true runs no_out))
all_kernels-IsRuns_example =
    all_kernels-IsRuns echoed true true (stalled_at (codes "g") (codes "0x0") 0) f_rows
      (ground arith, (ground arith, (ground arith, tt)))

abbrev samples : List (PerfRow ℕ)
samples = (some (codes "f"), 1) ∷ (some (codes "g"), 2) ∷ (none, 0) ∷ (some (codes "g"), 3) ∷ []

second_g : instance_rows (codes "g") 2 samples ≡ some ((some (codes "g"), 3) ∷ [])
unfolding instance_rows find_instance count_row text_eq
second_g = refl

instance_rows-instances_of_example :
    instance_rows (codes "g") 2 samples
    ≡ get_elem? (instances_of (codes "g") (blocks_of samples)) (2 - 1)
instance_rows-instances_of_example = instance_rows-instances_of (codes "g") 2 samples (omega arith)

abbrev f_instance : Instance ℕ
f_instance = record { kernel = codes "f"; cells = 1; others = (codes "f", 2) ∷ []; blank = 0 }

abbrev metric_sets : List (List Text)
metric_sets = (codes "A" ∷ []) ∷ []

plot_rows-draw_instances_example :
    plot_rows metric_sets
      (codes "y" ∷ [])
      []
      none
      0
      (table_of (f_instance ∷ f_instance ∷ []) ((codes "g", 5) ∷ []))
    ≡ plotted
        (draw_instances metric_sets (codes "y" ∷ []) [] (f_instance ∷ f_instance ∷ []) no_plots)
plot_rows-draw_instances_example =
    plot_rows-draw_instances metric_sets (codes "y" ∷ []) [] (f_instance ∷ f_instance ∷ [])
      ((codes "g", 5) ∷ []) (ground arith, (ground arith, tt))

abbrev g_start : PerfRow ℕ
g_start = (some (codes "g"), 2)

abbrev g_rest : List (Text × ℕ)
g_rest = (codes "g", 3) ∷ []

abbrev ended_g : List (PerfRow ℕ)
ended_g = (some (codes "g"), 7) ∷ (none, 0) ∷ []

-- The other instance of the kernel has a chart, which is kept.
one_chart_kept :
    length (
      charts_in
        (plots_of (
          plot_rows metric_sets
            (codes "y" ∷ [])
            []
            (some (codes "g"))
            0
            (ended_g ++ (g_start ∷ named_rows g_rest)))).pdf)
    ≡ 1
unfolding plot_rows kernel_instances last_instance draw_numbered save_charts plot_instance
    plot_metrics plot_throughputs rounds text_eq
one_chart_kept = refl

plot_rows_raised_example :
    plot_rows metric_sets
      (codes "y" ∷ [])
      []
      (some (codes "g"))
      0
      (ended_g ++ (g_start ∷ named_rows g_rest))
    ≡ raised (plots_of (plot_rows metric_sets (codes "y" ∷ []) [] (some (codes "g")) 0 ended_g))
plot_rows_raised_example =
    plot_rows_raised metric_sets (codes "y" ∷ []) [] (codes "g") ended_g 2 g_rest (omega arith)

kernel_found : kernel_rows (codes "f") mixed_rows ≡ some f_rows
unfolding kernel_rows find_rows text_eq
kernel_found = refl
