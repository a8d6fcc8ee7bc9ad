-- ===== src/Charts/Stalls/Runs.antt =====
-- All kernels of a table of stalls, as the rows that stand together under one name.
use mathlib.Core.List.{map}
use pti_gpu_itt_only.Base.{
  ℕ, ◌+◌, ◌≤◌, ◌≡◌, ◌≢◌, ◌∙◌, refl, sym, ap, arith, Bool, true, false, List, [], ◌∷◌, ◌++◌, length,
  length-append, slice, slice-middle, concat, All, All-append, append-nil, append_assoc, Bool-cases,
  inl, inr, ◌&&◌,
}
use pti_gpu_itt_only.Text.{Text, text_eq, text_eq_iff}
use pti_gpu_itt_only.Charts.Paging.{StallRow}
use pti_gpu_itt_only.Charts.Stalls.{
  Out, no_out, analyzed, draw_kernel, each_row, all_rows, last_kernel, close_files, all_kernels,
}

-- A kernel's name and rows that stand together.
abbrev pub Run : Type 0
Run = Text × List StallRow

abbrev pub IsOf : Text → StallRow → Type 0
IsOf kernel row = StallRow.kernel row ≡ kernel

-- Rows of one kernel, at least one, and the next run is another kernel's.
abbrev pub IsRuns : List Run → Type 0
IsRuns [] = Unit
IsRuns (run ∷ []) = (1 ≤ length run.1) × All (IsOf run.0) run.1
IsRuns (run ∷ next ∷ runs) =
    ((1 ≤ length run.1) × All (IsOf run.0) run.1) × (run.0 ≢ next.0) × IsRuns (next ∷ runs)

abbrev pub rows_of : List Run → List StallRow
rows_of runs = concat (map (λ run. run.1) runs)

module _ (analyze_stalls : Text → List StallRow → Text) (dumped kept : Bool) where
  -- The runs drawn one after the other.
  abbrev pub draw_runs : List Run → Out → Out
  draw_runs [] out = out
  draw_runs ((kernel, rows) ∷ runs) out =
      draw_runs runs (draw_kernel analyze_stalls dumped kept (analyzed kernel ∷ []) kernel rows out)

  each_row_same :
      (df : List StallRow) (index start : ℕ) (row : StallRow) (kernel : Text) (out : Out)
      → kernel ≢ []
      → kernel ≡ row.kernel
      → each_row analyze_stalls dumped kept df index row
          (record { current = kernel; start = start; out = out })
        ≡ record { current = kernel; start = start; out = out }
  unfolding each_row
  each_row_same df index start row kernel out named same =
      let no : text_eq kernel [] ≡ false = ground (arith, text_eq_iff kernel []) in
      let yes : text_eq kernel row.kernel ≡ true = (text_eq_iff kernel row.kernel).1 same in
      rw (no, yes, each_row) refl

  each_row_next :
      (df : List StallRow) (index start : ℕ) (row : StallRow) (kernel : Text) (out : Out)
      → kernel ≢ []
      → kernel ≢ row.kernel
      → each_row analyze_stalls dumped kept df index row
          (record { current = kernel; start = start; out = out })
        ≡ record {
          current = row.kernel;
          start = index;
          out =
              draw_kernel analyze_stalls dumped kept
                (analyzed kernel ∷ [])
                kernel
                (slice start index df)
                out;
        }
  unfolding each_row
  each_row_next df index start row kernel out named differs =
      let no : text_eq kernel [] ≡ false = ground (arith, text_eq_iff kernel []) in
      let no' : text_eq kernel row.kernel ≡ false = ground (arith, text_eq_iff kernel row.kernel) in
      rw (no, no', each_row) refl

  -- The rows from the run `this` on cut into runs, and drawn.
  record Cut (df this rest : List StallRow) (kernel : Text) (index start : ℕ) (out : Out)
      : Type 0 where
    pub first : List StallRow
    pub runs : List Run
    pub whole : rows_of ((kernel, first) ∷ runs) ≡ this ++ rest
    pub cut : IsRuns ((kernel, first) ∷ runs)
    pub drawn :
        last_kernel analyze_stalls dumped kept df (
          all_rows analyze_stalls dumped kept df index rest
            (record { current = kernel; start = start; out = out }))
        ≡ draw_runs ((kernel, first) ∷ runs) out

  draw_rows-Cut :
      (df before this rest : List StallRow) (kernel : Text) (index start : ℕ) (out : Out)
      → df ≡ before ++ (this ++ rest)
      → start ≡ length before
      → index ≡ length before + length this
      → 1 ≤ length this
      → All (IsOf kernel) this
      → kernel ≢ []
      → All (λ row. StallRow.kernel row ≢ []) rest
      → Cut df this rest kernel index start out
  unfolding all_rows last_kernel
  draw_rows-Cut df before this [] kernel index start out e s i some_row of named rest_named =
      record {
        first = this;
        runs = [];
        whole = refl;
        cut = (some_row, of);
        drawn =
            ap
              (λ rows.
                draw_kernel analyze_stalls dumped kept (analyzed kernel ∷ []) kernel rows out)
              (slice-middle start (length df) df before this [] e s (
                ap length e
                ∙ omega (arith, length-append before (this ++ []), ap length (append-nil this))));
      }
  draw_rows-Cut df before this (row ∷ rest) kernel index start out e s i some_row of named
        (row_named, rest_named) =
      elim (Bool-cases (text_eq kernel row.kernel)) [
        | inl equal ↦
            let same = (text_eq_iff kernel row.kernel).0 equal in
            let more =
              draw_rows-Cut df before (this ++ row ∷ []) rest kernel (index + 1) start out
                (e ∙ ap (◌++◌ before) (sym (append_assoc this (row ∷ []) rest))) s
                (omega (arith, length-append this (row ∷ [])))
                (omega (arith, length-append this (row ∷ [])))
                (All-append (IsOf kernel) this (row ∷ []) of (sym same, tt)) named rest_named in
            record {
              first = more.first;
              runs = more.runs;
              whole = more.whole ∙ append_assoc this (row ∷ []) rest;
              cut = more.cut;
              drawn =
                  ap
                    (λ l.
                      last_kernel analyze_stalls dumped kept df
                        (all_rows analyze_stalls dumped kept df (index + 1) rest l))
                    (each_row_same df index start row kernel out named same)
                  ∙ more.drawn;
            }
        | inr unequal ↦
            let differs : kernel ≢ row.kernel = ground (arith, text_eq_iff kernel row.kernel) in
            let out' =
              draw_kernel analyze_stalls dumped kept (analyzed kernel ∷ []) kernel
                (slice start index df) out in
            let more =
              draw_rows-Cut df (before ++ this) (row ∷ []) rest row.kernel (index + 1) index out'
                (e ∙ sym (append_assoc before this (row ∷ rest)))
                (omega (arith, length-append before this))
                (omega (arith, length-append before this)) (omega arith) (refl, tt) row_named
                rest_named in
            record {
              first = this;
              runs = (row.kernel, more.first) ∷ more.runs;
              whole = ap (◌++◌ this) more.whole;
              cut = ((some_row, of), differs, more.cut);
              drawn =
                  ap
                    (λ l.
                      last_kernel analyze_stalls dumped kept df
                        (all_rows analyze_stalls dumped kept df (index + 1) rest l))
                    (each_row_next df index start row kernel out named differs)
                  ∙ more.drawn
                  ∙ ap
                      (λ rows. draw_runs ((row.kernel, more.first) ∷ more.runs) (
                        draw_kernel analyze_stalls dumped kept (analyzed kernel ∷ []) kernel rows
                          out))
                      (slice-middle start index df before this (row ∷ rest) e s i);
            }
      ]

  -- Take at least one row of stall metrics, each with a kernel's name. Then the rows are those of a
  -- list of runs, one behind the other: each run is at least one row, all of one kernel, and the
  -- next run is another kernel's. And the output for all kernels is that of drawing each run on its
  -- own, in this order, with the files closed at the end.
  pub all_kernels-IsRuns :
      (row : StallRow) (rows : List StallRow)
      → All (λ r. StallRow.kernel r ≢ []) (row ∷ rows)
      → (runs : List Run) × (rows_of runs ≡ row ∷ rows)
        × IsRuns runs
        × (all_kernels analyze_stalls dumped kept (row ∷ rows)
            ≡ close_files (dumped && kept) (draw_runs runs no_out))
  unfolding all_kernels all_rows each_row text_eq
  all_kernels-IsRuns row rows (row_named, named) =
      let more =
        draw_rows-Cut (row ∷ rows) [] (row ∷ []) rows row.kernel 1 0 no_out refl refl (omega arith)
          (omega arith) (refl, tt) row_named named in
      (
        (row.kernel, more.first) ∷ more.runs,
        more.whole,
        more.cut,
        ap (close_files (dumped && kept)) more.drawn,
      )
