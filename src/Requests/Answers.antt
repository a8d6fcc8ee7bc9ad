-- ===== src/Requests/Answers.antt =====
-- Which section answers a request, and the kernel's name that is looked for.
use pti_gpu_itt_only.Base.{
  ℕ, ◌+◌, ◌≡◌, ◌≢◌, ◌∙◌, refl, arith, Bool, false, List, [], ◌∷◌, ◌++◌, none, some, All,
}
use pti_gpu_itt_only.Text.{Text, text_eq, text_eq_iff}
use pti_gpu_itt_only.Charts.Paging.{StallRow}
use pti_gpu_itt_only.Charts.Stalls.{find_rows, kernel_rows, analyze_stall_metrics, analyze_rows}
use pti_gpu_itt_only.Charts.Perf.Instance.{
  PerfRow, PerfChart, cleansed, cleanse, plot_instance, plot_metrics,
}
use pti_gpu_itt_only.Charts.Perf.All.{sets_of}
use pti_gpu_itt_only.Requests.{
  Answer, no_kernel, HttpArgs, pdf, message, answer_sections, answer_stalls, of_instance,
  answer_perf, answer_rows, answer_charts, before_bracket, without_shape,
}

before_bracket-none : (s : Text) → All (λ c. c ≢ b'[') s → before_bracket s ≡ none
unfolding before_bracket
before_bracket-none [] h = refl
before_bracket-none (c ∷ s) (differs, h) =
    rw (before_bracket-none s h, before_bracket) (ground arith)

before_bracket-append :
    (name shape : Text)
    → All (λ c. c ≢ b'[') shape
    → before_bracket (name ++ b'[' ∷ shape) ≡ some name
unfolding before_bracket
before_bracket-append [] shape h = rw (before_bracket-none shape h, before_bracket) refl
before_bracket-append (c ∷ name) shape h =
    rw (before_bracket-append name shape h, before_bracket) refl

-- A kernel's name with a shape in brackets behind it, which has no further bracket of that kind, is
-- looked for without the shape, even where the name itself has brackets; and a name without such a
-- bracket is looked for as it is.
pub without_shape-append :
    (name shape : Text)
    → All (λ c. c ≢ b'[') shape
    → (without_shape (name ++ b'[' ∷ shape) ≡ name) × (without_shape shape ≡ shape)
unfolding without_shape
without_shape-append name shape h = (
  rw (before_bracket-append name shape h, without_shape) refl,
  rw (before_bracket-none shape h, without_shape) refl,
)

find_rows-none :
    (kernel : Text) (index : ℕ) (df : List StallRow)
    → All (λ row. StallRow.kernel row ≢ kernel) df
    → find_rows kernel index df none ≡ (none, none)
unfolding find_rows
find_rows-none kernel index [] others = refl
find_rows-none kernel index (row ∷ rows) (differs, others) =
    let unequal : text_eq row.kernel kernel ≡ false =
      ground (arith, text_eq_iff row.kernel kernel) in
    rw (unequal, find_rows) (find_rows-none kernel (index + 1) rows others)

kernel_rows-none :
    (kernel : Text) (df : List StallRow)
    → All (λ row. StallRow.kernel row ≢ kernel) df
    → kernel_rows kernel df ≡ none
unfolding kernel_rows
kernel_rows-none kernel df others = rw (find_rows-none kernel 0 df others, kernel_rows) refl

-- Take a request for the stalls of a kernel, without a shader dump, that no row of the first section
-- is of. Then the answer is the message that there are no data for the kernel, whatever the later
-- sections hold: they are not searched.
pub answer_sections_first :
    (analyze_stalls : Text → List StallRow → Text) (report : Bool) (kernel : Text)
    (df : List StallRow) (later : List (List StallRow))
    → All (λ row. StallRow.kernel row ≢ kernel) df
    → answer_sections (answer_stalls analyze_stalls none report kernel) (df ∷ later)
      ≡ message (no_kernel kernel)
unfolding answer_sections answer_stalls analyze_stall_metrics analyze_rows
answer_sections_first analyze_stalls report kernel df later others =
    rw
      (
        kernel_rows-none kernel df others,
        answer_sections,
        answer_stalls,
        analyze_stall_metrics,
        analyze_rows,
      )
      refl

-- A section of samples: the table's columns and rows.
abbrev pub Table {ℓ} : Type ℓ → Type ℓ
Table Cells = List Text × List (PerfRow Cells)

module _ {ℓ} {Cells : Type ℓ} (is_instance : Text → Cells → Bool) where
  abbrev pub answer_table : HttpArgs → Text → Table Cells → Answer (PerfChart Cells)
  answer_table args instance_id table = answer_perf is_instance args instance_id table.0 table.1

  answer_sections-skip :
      (args : HttpArgs) (metrics : List Text) (instance_id : Text)
      (before after : List (Table Cells))
      → args.metrics ≡ some metrics
      → All (λ table. of_instance is_instance instance_id table.1 ≡ []) before
      → answer_sections (answer_table args instance_id) (before ++ after)
        ≡ answer_sections (answer_table args instance_id) after
  unfolding answer_sections answer_perf
  answer_sections-skip args metrics instance_id [] after e h = refl
  answer_sections-skip args metrics instance_id (table ∷ before) after e (no_rows, h) =
      rw (e, no_rows, answer_sections, answer_perf)
        (answer_sections-skip args metrics instance_id before after e h)

  -- Take a request for an instance of which the sections before a given one have no row, and which
  -- has rows in that one, the first with a kernel's name. If its table has the columns of all sets
  -- of metrics and throughputs asked for, and at least one set of metrics has a label, the answer is
  -- the charts of the instance's rows, whatever the later sections hold.
  pub answer_sections-plot_instance :
      (args : HttpArgs) (metrics : List Text) (instance_id kernel : Text) (c : Cells)
      (rows : List (PerfRow Cells)) (before after : List (Table Cells)) (table : Table Cells)
      (set : List Text) (sets throughputs : List (List Text)) (label : Text) (labels : List Text)
      → args.metrics ≡ some metrics
      → args.ylabel ≡ label ∷ labels
      → All (λ t. of_instance is_instance instance_id t.1 ≡ []) before
      → of_instance is_instance instance_id table.1 ≡ (some kernel, c) ∷ rows
      → cleanse table.0 metrics ≡ cleansed (set ∷ sets)
      → cleanse table.0 (sets_of args.throughput) ≡ cleansed throughputs
      → answer_sections (answer_table args instance_id) (before ++ (table ∷ after))
        ≡ pdf (
            plot_instance
              (set ∷ sets)
              (label ∷ labels)
              throughputs
              kernel
              ((some kernel, c) ∷ rows))
  unfolding answer_sections answer_perf answer_rows answer_charts plot_instance plot_metrics
  answer_sections-plot_instance args metrics instance_id kernel c rows before after table set sets
        throughputs label labels e l h found m t =
      answer_sections-skip args metrics instance_id before (table ∷ after) e h
      ∙ rw (e, found, m, t, l, answer_sections, answer_perf, answer_rows, answer_charts) refl
