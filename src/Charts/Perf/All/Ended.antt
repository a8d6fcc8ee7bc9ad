-- ===== src/Charts/Perf/All/Ended.antt =====
-- All instances of a table where each is ended by one blank row.

use pti_gpu_itt_only.Base.{
  ℕ, ◌+◌, ◌≡◌, ◌≢◌, ◌∙◌, refl, sym, ap, arith, false, List, [], ◌∷◌, ◌++◌, none, some, length,
  length-append, slice-middle, All, append_assoc, Bool-cases, inl, inr,
}
use pti_gpu_itt_only.Text.{Text, text_eq, text_eq_iff}
use pti_gpu_itt_only.Charts.Perf.Instance.{PerfRow}
use pti_gpu_itt_only.Charts.Perf.All.{
  Plots, no_plots, draw_instance, all_instances, plot_rows, plotted,
}

-- An instance: its first row, with the kernel's name, the other rows with theirs, and the blank row.
pub record Instance {ℓ} (Cells : Type ℓ) : Type ℓ where
  pub kernel : Text
  pub cells : Cells
  pub others : List (Text × Cells)
  pub blank : Cells

module _ {ℓ} {Cells : Type ℓ} where
  abbrev pub named_rows : List (Text × Cells) → List (PerfRow Cells)
  named_rows [] = []
  named_rows ((name, cells) ∷ rows) = (some name, cells) ∷ named_rows rows

  abbrev pub rows_in : Instance Cells → List (PerfRow Cells)
  rows_in i = (some i.kernel, i.cells) ∷ named_rows i.others

  abbrev pub table_of : List (Instance Cells) → List (Text × Cells) → List (PerfRow Cells)
  table_of [] unended = named_rows unended
  table_of (i ∷ instances) unended = rows_in i ++ ((none, i.blank) ∷ table_of instances unended)

  module _ (sets : List (List Text)) (labels : List Text) (throughputs : List (List Text)) where
    abbrev pub draw_instances : List (Instance Cells) → Plots Cells → Plots Cells
    draw_instances [] out = out
    draw_instances (i ∷ instances) out =
        draw_instances instances (draw_instance sets labels throughputs i.kernel (rows_in i) out)

    abbrev run :
        List (PerfRow Cells) → ℕ → List (PerfRow Cells) → ℕ → Text → Plots Cells → Plots Cells
    run df index rows start current out =
        (all_instances sets labels throughputs df index rows
          (record { start = start; current = current; out = out })).out

    -- Rows with a kernel's name, within an instance.
    run_named :
        (df : List (PerfRow Cells)) (index : ℕ) (rows : List (Text × Cells))
        (rest : List (PerfRow Cells)) (start : ℕ) (current : Text) (out : Plots Cells)
        → current ≢ []
        → run df index (named_rows rows ++ rest) start current out
          ≡ run df (index + length (named_rows rows)) rest start current out
    unfolding all_instances
    run_named df index [] rest start current out named =
        ap (λ n. run df n rest start current out) {x = index} (omega arith)
    run_named df index ((name, c) ∷ rows) rest start current out named =
        let no : text_eq current [] ≡ false = ground (arith, text_eq_iff current []) in
        rw (no, all_instances, run) (run_named df (index + 1) rows rest start current out named)
        ∙ ap (λ n. run df n rest start current out) {x = index + 1 + length (named_rows rows)}
            (omega arith)

    -- Rows behind the last blank row.
    run_unended :
        (df : List (PerfRow Cells)) (index : ℕ) (rows : List (Text × Cells)) (start : ℕ)
        (current : Text) (out : Plots Cells)
        → run df index (named_rows rows) start current out ≡ out
    unfolding all_instances
    run_unended df index [] start current out = refl
    run_unended df index ((name, c) ∷ rows) start current out =
        elim (Bool-cases (text_eq current [])) [
          | inl equal ↦
              rw (equal, all_instances, run) (run_unended df (index + 1) rows index name out)
          | inr unequal ↦
              rw (unequal, all_instances, run) (run_unended df (index + 1) rows start current out)
        ]

    -- One instance with its blank row.
    run_instance :
        (df before : List (PerfRow Cells)) (index : ℕ) (this : Instance Cells)
        (rest : List (PerfRow Cells)) (start : ℕ) (out : Plots Cells)
        → df ≡ before ++ (rows_in this ++ ((none, this.blank) ∷ rest))
        → index ≡ length before
        → this.kernel ≢ []
        → run df index (rows_in this ++ ((none, this.blank) ∷ rest)) start [] out
          ≡ run df
              (index + 1 + length (named_rows this.others) + 1)
              rest
              index
              []
              (draw_instance sets labels throughputs this.kernel (rows_in this) out)
    unfolding all_instances text_eq
    run_instance df before index this rest start out e i named =
        run_named df (index + 1) this.others ((none, this.blank) ∷ rest) index this.kernel out named
        ∙ ap
            (λ rows.
              run df (index + 1 + length (named_rows this.others) + 1) rest index []
                (draw_instance sets labels throughputs this.kernel rows out))
            (slice-middle index (index + 1 + length (named_rows this.others)) df before
              (rows_in this) ((none, this.blank) ∷ rest) e i (omega arith))

    run_instances :
        (df before : List (PerfRow Cells)) (index : ℕ) (instances : List (Instance Cells))
        (unended : List (Text × Cells)) (start : ℕ) (out : Plots Cells)
        → df ≡ before ++ table_of instances unended
        → index ≡ length before
        → All (λ i. Instance.kernel i ≢ []) instances
        → run df index (table_of instances unended) start [] out ≡ draw_instances instances out
    run_instances df before index [] unended start out e i named =
        run_unended df index unended start [] out
    run_instances df before index (this ∷ instances) unended start out e i (k, named) =
        run_instance df before index this (table_of instances unended) start out e i k
        ∙ run_instances df (before ++ (rows_in this ++ ((none, this.blank) ∷ [])))
            (index + 1 + length (named_rows this.others) + 1) instances unended index
            (draw_instance sets labels throughputs this.kernel (rows_in this) out)
            (e
              ∙ ap (◌++◌ before) (
                  sym (
                    append_assoc (rows_in this) ((none, this.blank) ∷ [])
                      (table_of instances unended)))
              ∙ sym (
                  append_assoc before (rows_in this ++ ((none, this.blank) ∷ []))
                    (table_of instances unended)))
            (omega (
              arith,
              length-append before (rows_in this ++ ((none, this.blank) ∷ [])),
              length-append (named_rows this.others) ((none, this.blank) ∷ []),
            ))
            named

    -- Take a table of instances, each of at least one row with a kernel's name and ended by one blank
    -- row, with further rows that have names behind the last blank row. Then the analysis of all
    -- instances of all kernels charts the instances, in this order, each under the kernel of its
    -- first row; the rows behind the last blank row are not charted.
    pub plot_rows-draw_instances :
        (instances : List (Instance Cells)) (unended : List (Text × Cells))
        → All (λ i. Instance.kernel i ≢ []) instances
        → plot_rows sets labels throughputs none 0 (table_of instances unended)
          ≡ plotted (draw_instances instances no_plots)
    unfolding plot_rows
    plot_rows-draw_instances instances unended named = ap plotted (
        run_instances (table_of instances unended) [] 0 instances unended 0 no_plots refl refl
          named)
