-- ===== src/Charts/Perf/All.antt =====
-- `AnalyzePerfMetrics`: the charts of all instances, of those of one kernel, of one instance of
-- every kernel, or of one instance of one kernel.
pub mod Ended
pub mod Raised
use pti_gpu_itt_only.Base.{
  ℕ, zero, suc, ◌+◌, min, Bool, true, false, not, ◌&&◌, ◌||◌, List, [], ◌∷◌, ◌++◌, Option, none,
  some, if◌then◌else◌, length, slice, ltb,
}
use pti_gpu_itt_only.Text.{Text, strip, text_eq}
use pti_gpu_itt_only.Charts.Perf.Instance.{
  PerfRow, PerfChart, Cleansed, cleansed, missing, cleanse, plot_instance, instance_rows,
  has_column,
}

-- What is printed.
pub data Message : Type 0 where
  no_metric : Text → Message
  no_throughput : Text → Message
  no_instance : ℕ → Text → Message
  analyzed : Text → Message
  no_samples : Text → Message
  analyzed_instance : ℕ → Text → Message
  no_samples_for : ℕ → Text → Message
  instance_charted : ℕ → Text → Message
  no_performance : ℕ → Text → Message
  charts_done : Message
  no_charts : Message

-- The command's options; `instance` is 0 where the option is less than 1.
pub record PerfArgs : Type 0 where
  pub metrics : List Text
  pub throughput : Option (List Text)
  pub ylabel : List Text
  pub kernel : Option Text
  pub instance_number : ℕ

-- The PDF file, unless it is not opened yet, and what is printed.
pub record Plots {ℓ} (Cells : Type ℓ) : Type ℓ where
  pub pdf : Option (List (PerfChart Cells))
  pub told : List Message

-- How the analysis ends: with a column that is missing, with an exception behind the charts and messages
-- so far, or with the charts.
pub data Ending {ℓ} (Cells : Type ℓ) : Type ℓ where
  stopped : Message → Ending Cells
  raised : Plots Cells → Ending Cells
  plotted : Plots Cells → Ending Cells

-- The variables of the loop over all instances.
pub record Loop {ℓ} (Cells : Type ℓ) : Type ℓ where
  pub start : ℕ
  pub current : Text
  pub out : Plots Cells

-- The variables of the loop over the instances of one kernel; `counting` is false from `start`
-- on.
pub record KernelLoop {ℓ} (Cells : Type ℓ) : Type ℓ where
  pub start : Option ℕ
  pub number : ℕ
  pub out : Plots Cells

abbrev pub sets_of : Option (List Text) → List Text
sets_of none = []
sets_of (some sets) = sets

module _ {ℓ} {Cells : Type ℓ} where
  abbrev pub no_plots : Plots Cells
  no_plots = record { pdf = none; told = [] }

  abbrev pub charts_in : Option (List (PerfChart Cells)) → List (PerfChart Cells)
  charts_in none = []
  charts_in (some charts) = charts

  -- The charts saved, to a file that the first one opens, and a message for each case.
  unfoldable pub save_charts :
      List (PerfChart Cells) → List Message → List Message → Plots Cells → Plots Cells
  save_charts [] done failed out = record out { told = out.told ++ failed }
  save_charts (chart ∷ charts) done failed out = record {
    pdf = some (charts_in out.pdf ++ chart ∷ charts);
    told = out.told ++ done;
  }

  abbrev pub has_charts : List (PerfChart Cells) → Bool
  has_charts [] = false
  has_charts (chart ∷ charts) = true

  -- The kernels, each once, in the order of their first rows.
  unfoldable pub unique : List Text → List (PerfRow Cells) → List Text
  unique seen [] = []
  unique seen ((none, cells) ∷ rows) = unique seen rows
  unique seen ((some name, cells) ∷ rows) =
      let rest = unique (if has_column seen name then seen else name ∷ seen) rows in
      if has_column seen name then rest else name ∷ rest

  module _ (sets : List (List Text)) (labels : List Text) (throughputs : List (List Text)) where
    -- An instance that has ended.
    unfoldable pub draw_instance : Text → List (PerfRow Cells) → Plots Cells → Plots Cells
    draw_instance kernel rows out =
        save_charts (plot_instance sets labels throughputs kernel rows) (analyzed kernel ∷ [])
          (no_samples kernel ∷ []) out

    -- All instances of all kernels.
    unfoldable pub all_instances :
        List (PerfRow Cells) → ℕ → List (PerfRow Cells) → Loop Cells → Loop Cells
    all_instances df index [] s = s
    all_instances df index ((none, cells) ∷ rows) s = all_instances df (index + 1) rows (record {
      start = s.start;
      current = [];
      out = draw_instance s.current (slice s.start index df) s.out;
    })
    all_instances df index ((some name, cells) ∷ rows) s =
        all_instances df (index + 1) rows
          (if text_eq s.current [] then record s { start = index; current = name } else s)

    -- `PlotKernelInstancePerfMetrics`: whether there are charts, and the output.
    unfoldable pub plot_kernel_instance :
        Text → ℕ → List (PerfRow Cells) → List Message → List Message → Plots Cells → Plots Cells
    plot_kernel_instance kernel number df done failed out = elim (instance_rows kernel number df) [
      | none ↦ record out { told = out.told ++ (no_instance number kernel ∷ failed) }
      | some rows ↦ save_charts (plot_instance sets labels throughputs kernel rows) done failed out
    ]

    -- The given instance of every kernel.
    unfoldable pub each_kernel : ℕ → List (PerfRow Cells) → List Text → Plots Cells → Plots Cells
    each_kernel number df [] out = out
    each_kernel number df (kernel ∷ kernels) out =
        each_kernel number df kernels
          (plot_kernel_instance kernel number df (analyzed kernel ∷ []) [] out)

    -- The rounds of the loop over the metrics, each of which counts an instance.
    unfoldable pub rounds : List (PerfRow Cells) → ℕ
    rounds [] = min 1 (min (length sets) (length labels))
    rounds (row ∷ rows) = min (length sets) (length labels)

    unfoldable pub draw_numbered : Text → ℕ → List (PerfRow Cells) → Plots Cells → Plots Cells
    draw_numbered kernel number rows out =
        save_charts (plot_instance sets labels throughputs kernel rows)
          (analyzed_instance number kernel ∷ []) (no_samples_for number kernel ∷ []) out

    unfoldable pub kernel_instances :
        Text → List (PerfRow Cells) → ℕ → List (PerfRow Cells) → KernelLoop Cells → KernelLoop Cells
    kernel_instances kernel df index [] s = s
    kernel_instances kernel df index ((some name, cells) ∷ rows) s =
        kernel_instances kernel df (index + 1) rows (elim s.start [
          | none ↦ if text_eq name kernel then record s { start = some index } else s
          | some start ↦ s
        ])
    kernel_instances kernel df index ((none, cells) ∷ rows) s =
        kernel_instances kernel df (index + 1) rows (elim s.start [
          | none ↦ s
          | some start ↦ record {
            start = none;
            number = s.number + rounds (slice start index df);
            out =
                draw_numbered kernel (s.number + rounds (slice start index df))
                  (slice start index df) s.out;
          }
        ])

    -- Behind the loop: an instance at the end of the table. The loop over its metrics reads a name
    -- that is not bound, in its first round.
    unfoldable pub last_instance : Text → KernelLoop Cells → Ending Cells
    last_instance kernel s = elim s.start [
      | none ↦ plotted s.out
      | some start ↦
          if ltb 0 (min (length sets) (length labels))
          then raised s.out
          else plotted (record {
            pdf = s.out.pdf;
            told = s.out.told ++ (no_samples_for s.number kernel ∷ []);
          })
    ]

    -- The four cases.
    unfoldable pub plot_rows : Option Text → ℕ → List (PerfRow Cells) → Ending Cells
    plot_rows none zero df =
        plotted (all_instances df 0 df (record { start = 0; current = []; out = no_plots })).out
    plot_rows none (suc n) df = plotted (each_kernel (suc n) df (unique [] df) no_plots)
    plot_rows (some kernel) zero df =
        last_instance kernel
          (kernel_instances kernel df 0 df (record { start = none; number = 0; out = no_plots }))
    plot_rows (some kernel) (suc n) df = plotted (
        plot_kernel_instance kernel (suc n) df (instance_charted (suc n) kernel ∷ [])
          (no_performance (suc n) kernel ∷ []) no_plots)

  -- The PDF file is closed, if there is one; an exception leaves it as it is.
  unfoldable pub close_pdf : Ending Cells → Ending Cells
  close_pdf (stopped message) = stopped message
  close_pdf (raised out) = raised out
  close_pdf (plotted out) = elim out.pdf [
    | none ↦ plotted (record out { told = out.told ++ (no_charts ∷ []) })
    | some charts ↦ plotted (record out { told = out.told ++ (charts_done ∷ []) })
  ]

  unfoldable pub analyze_perf_metrics : PerfArgs → List Text → List (PerfRow Cells) → Ending Cells
  analyze_perf_metrics args columns df = elim (cleanse columns args.metrics) [
    | missing name ↦ stopped (no_metric name)
    | cleansed sets ↦ elim (cleanse columns (sets_of args.throughput)) [
      | missing name ↦ stopped (no_throughput (strip name))
      | cleansed throughputs ↦
          close_pdf (plot_rows sets args.ylabel throughputs args.kernel args.instance_number df)
    ]
  ]
