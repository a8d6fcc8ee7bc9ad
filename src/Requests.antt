-- ===== src/Requests.antt =====
-- `do_GET` and `HttpAnalyzePerfMetrics` of `tools/unitrace/scripts/metrics/analyzeperfmetrics.py`,
-- lines 1255 to 1446: a request `/<kernel>/<instance>` of the trace viewer, answered by charts. The
-- sections of the metrics file are those of `Sections.Server`; their rows are what the table reader
-- makes of them, and `unquote` is the web library's.
pub mod Answers
mod Tests
use mathlib.Core.List.{reverse}
use pti_gpu_itt_only.Base.{
  ℕ, zero, suc, Bool, true, false, not, ◌&&◌, ◌||◌, List, [], ◌∷◌, ◌++◌, Option, none, some,
  if◌then◌else◌, leb, ◌==◌,
}
use pti_gpu_itt_only.Text.{Text, codes, split, strip, text_eq}
use pti_gpu_itt_only.Charts.Paging.{StallRow}
use pti_gpu_itt_only.Charts.Stalls.{
  Page, StallArgs, Analysis, nothing, no_folder, no_metrics, made, analyze_stall_metrics,
}
use pti_gpu_itt_only.Charts.Perf.Instance.{
  PerfRow, PerfChart, missing, cleansed, cleanse, plot_instance,
}
use pti_gpu_itt_only.Charts.Perf.All.{sets_of}

-- A text that is sent.
pub data Told : Type 0 where
  no_such_folder : Told
  no_kernel : Text → Told
  no_metric : Text → Told

-- What the analysis of a section gives a request: neither a message nor charts, a message, the
-- charts, or an exception.
pub data Answer {ℓ} (Chart : Type ℓ) : Type ℓ where
  silent : Answer Chart
  told : Told → Answer Chart
  charts : List Chart → Answer Chart
  raised : Answer Chart

-- `HttpAnalyzeStallMetrics`
unfoldable pub answer_stalls :
    (Text → List StallRow → Text) → Option Bool → Bool → Text → List StallRow → Answer Page
answer_stalls analyze_stalls dump report kernel df =
    elim (analyze_stall_metrics analyze_stalls true
      (record { kernel = some kernel; dump = dump; report = report }) df) [
        | nothing ↦ silent
        | no_folder ↦ told no_such_folder
        | no_metrics name ↦ told (no_kernel name)
        | made out ↦ elim out.pdf [ none ↦ silent | some pages ↦ charts pages ]
      ]

-- The options of a request's charts, of which `--metrics` and `--throughput` may not be given.
pub record HttpArgs : Type 0 where
  pub metrics : Option (List Text)
  pub throughput : Option (List Text)
  pub ylabel : List Text

module _ {ℓ} {Cells : Type ℓ} (is_instance : Text → Cells → Bool) where
  -- `df.loc[df['GlobalInstanceId'] == float(instance)]`; the comparison is `is_instance`.
  unfoldable pub of_instance : Text → List (PerfRow Cells) → List (PerfRow Cells)
  of_instance instance_id [] = []
  of_instance instance_id ((name, cells) ∷ rows) =
      let rest = of_instance instance_id rows in
      if is_instance instance_id cells then (name, cells) ∷ rest else rest

  -- The charts of the rows. The title wants the first row's kernel, which is no text in a blank row.
  unfoldable pub answer_charts :
      List (List Text)
      → List Text
      → List (List Text)
      → List (PerfRow Cells)
      → Answer (PerfChart Cells)
  answer_charts sets labels throughputs [] = silent
  answer_charts sets labels throughputs ((some kernel, cells) ∷ rows) =
      elim (plot_instance sets labels throughputs kernel ((some kernel, cells) ∷ rows)) [
        | [] ↦ silent
        | chart ∷ more ↦ charts (chart ∷ more)
      ]
  answer_charts (set ∷ sets) (label ∷ labels) throughputs ((none, cells) ∷ rows) = raised
  answer_charts _ _ throughputs ((none, cells) ∷ rows) = silent

  -- The part behind the test that there are rows.
  unfoldable pub answer_rows :
      List Text → HttpArgs → List Text → List (PerfRow Cells) → Answer (PerfChart Cells)
  answer_rows metrics args columns rows = elim (cleanse columns metrics) [
    | missing name ↦ told (no_metric name)
    | cleansed sets ↦ elim (cleanse columns (sets_of args.throughput)) [
      | missing name ↦ told (no_metric (strip name))
      | cleansed throughputs ↦ answer_charts sets args.ylabel throughputs rows
    ]
  ]

  -- `HttpAnalyzePerfMetrics`
  unfoldable pub answer_perf :
      HttpArgs → Text → List Text → List (PerfRow Cells) → Answer (PerfChart Cells)
  answer_perf args instance_id columns df = elim args.metrics [
    | none ↦ silent
    | some metrics ↦ elim (of_instance instance_id df) [
      | [] ↦ silent
      | row ∷ rows ↦ answer_rows metrics args columns (row ∷ rows)
    ]
  ]

-- What is sent for a request.
pub data Response {ℓ} (Chart : Type ℓ) : Type ℓ where
  ignored : Response Chart
  failed : Response Chart
  invalid : Response Chart
  pdf : List Chart → Response Chart
  message : Told → Response Chart
  nothing_collected : Response Chart

abbrev pub drop_quotes : Text → Text
drop_quotes [] = []
drop_quotes (c ∷ s) = if c == b'"' then drop_quotes s else c ∷ s

-- `request[1].strip('"')`
unfoldable pub strip_quotes : Text → Text
strip_quotes s = reverse (drop_quotes (reverse (drop_quotes s)))

-- `instance.isdigit()`, of characters below 128.
unfoldable pub is_digits : Text → Bool
is_digits [] = false
is_digits (c ∷ []) = leb b'0' c && leb c b'9'
is_digits (c ∷ d ∷ s) = leb b'0' c && (leb c b'9' && is_digits (d ∷ s))

-- The text before the last `[`, if there is one.
unfoldable pub before_bracket : Text → Option Text
before_bracket [] = none
before_bracket (c ∷ s) = elim (before_bracket s) [
  | some t ↦ some (c ∷ t)
  | none ↦ if c == b'[' then some [] else none
]

-- "strip kernel shape for stall sampling"
unfoldable pub without_shape : Text → Text
without_shape kernel = elim (before_bracket kernel) [ none ↦ kernel | some name ↦ name ]

module _ {ℓ κ} {Chart : Type ℓ} {Section : Type κ} where
  -- The loop over the sections; `answer` is the analysis of one.
  unfoldable pub answer_sections : (Section → Answer Chart) → List Section → Response Chart
  answer_sections answer [] = nothing_collected
  answer_sections answer (section ∷ sections) = elim (answer section) [
    | silent ↦ answer_sections answer sections
    | told text ↦ message text
    | charts some_charts ↦ pdf some_charts
    | raised ↦ failed
  ]

  -- `do_GET`; `answer kernel instance` is the analysis of a section.
  unfoldable pub do_get :
      (Text → Text)
      → Bool
      → (Text → Text → Section → Answer Chart)
      → List Section
      → Text
      → Text
      → Response Chart
  do_get unquote eustall answer sections client path =
      if not (text_eq client (codes "127.0.0.1"))
      then ignored
      else elim (split (unquote path) (codes "/")) [
        | [] ↦ failed
        | first ∷ [] ↦ failed
        | first ∷ kernel ∷ [] ↦ if text_eq kernel (codes "favicon.ico") then ignored else invalid
        | first ∷ kernel ∷ instance_id ∷ others ↦
            if text_eq kernel (codes "favicon.ico")
            then ignored
            else if not (is_digits instance_id)
            then invalid
            else answer_sections
                (answer
                  (if eustall then without_shape (strip_quotes kernel) else strip_quotes kernel)
                  instance_id)
                sections
      ]
