-- ===== src/Charts/Perf/All/Raised.antt =====
-- The instances of one kernel, where the table ends within one of them.
use pti_gpu_itt_only.Base.{
  ℕ, zero, suc, ◌+◌, ◌-◌, ◌≤◌, ◌<◌, min, ◌≡◌, ◌∙◌, refl, sym, ap, arith, true, Bool-cases, List, [],
  ◌∷◌, ◌++◌, none, some, length, take, slice, ltb, Option-cases, inl, inr,
}
use pti_gpu_itt_only.Text.{Text, text_eq, text_eq_iff}
use pti_gpu_itt_only.Charts.Perf.Instance.{PerfRow}
use pti_gpu_itt_only.Charts.Perf.All.{
  Plots, Ending, stopped, raised, plotted, no_plots, plot_rows, KernelLoop, kernel_instances,
  last_instance,
}
use pti_gpu_itt_only.Charts.Perf.All.Ended.{named_rows}

take_more {ℓ} :
    {A : Type ℓ} (n : ℕ) (xs ys : List A) → n ≤ length xs → take n (xs ++ ys) ≡ take n xs
take_more zero xs ys h = refl
take_more (suc n) [] ys h = absurd (omega arith)
take_more (suc n) (x ∷ xs) ys h = ap (◌∷◌ x) (take_more n xs ys (omega arith))

-- A slice that ends within the first rows does not depend on those behind.
slice_more {ℓ} :
    {A : Type ℓ} (start stop : ℕ) (xs ys : List A)
    → stop ≤ length xs
    → slice start stop (xs ++ ys) ≡ slice start stop xs
slice_more zero stop xs ys h = take_more (stop - 0) xs ys (omega arith)
slice_more (suc start) stop [] ys h =
    let none_left : stop - suc start ≡ 0 = omega arith in rw none_left refl
slice_more (suc start) stop (x ∷ xs) ys h =
    let cut : stop - suc start ≡ (stop - 1) - start = omega arith in
    rw cut (slice_more start (stop - 1) xs ys (omega arith))

module _ {ℓ} {Cells : Type ℓ} where
  -- The charts and the messages at the end.
  abbrev pub plots_of : Ending Cells → Plots Cells
  plots_of (stopped message) = no_plots
  plots_of (raised out) = out
  plots_of (plotted out) = out

module _ {ℓ} {Cells : Type ℓ} (sets : List (List Text)) (labels : List Text)
    (throughputs : List (List Text)) where
  kernel_instances-append :
      (kernel : Text) (df : List (PerfRow Cells)) (index : ℕ) (xs ys : List (PerfRow Cells))
      (s : KernelLoop Cells)
      → kernel_instances sets labels throughputs kernel df index (xs ++ ys) s
        ≡ kernel_instances sets labels throughputs kernel df
            (index + length xs)
            ys
            (kernel_instances sets labels throughputs kernel df index xs s)
  unfolding kernel_instances
  kernel_instances-append kernel df index [] ys s =
      ap (λ n. kernel_instances sets labels throughputs kernel df n ys s) {x = index} (omega arith)
  kernel_instances-append kernel df index ((none, c) ∷ xs) ys s =
      kernel_instances-append kernel df (index + 1) xs ys _
      ∙ ap
          (λ n.
            kernel_instances sets labels throughputs kernel df n ys
              (kernel_instances sets labels throughputs kernel df index ((none, c) ∷ xs) s))
          {x = index + 1 + length xs} (omega arith)
  kernel_instances-append kernel df index ((some name, c) ∷ xs) ys s =
      kernel_instances-append kernel df (index + 1) xs ys _
      ∙ ap
          (λ n.
            kernel_instances sets labels throughputs kernel df n ys
              (kernel_instances sets labels throughputs kernel df index ((some name, c) ∷ xs) s))
          {x = index + 1 + length xs} (omega arith)

  -- The loop over the first rows takes nothing from those behind.
  kernel_instances_more :
      (kernel : Text) (df more : List (PerfRow Cells)) (index : ℕ) (rows : List (PerfRow Cells))
      (s : KernelLoop Cells)
      → index + length rows ≤ length df
      → kernel_instances sets labels throughputs kernel (df ++ more) index rows s
        ≡ kernel_instances sets labels throughputs kernel df index rows s
  unfolding kernel_instances
  kernel_instances_more kernel df more index [] s h = refl
  kernel_instances_more kernel df more index ((some name, c) ∷ rows) s h =
      kernel_instances_more kernel df more (index + 1) rows _ (omega arith)
  kernel_instances_more kernel df more index ((none, c) ∷ rows) s h = elim (Option-cases s.start) [
    | inl e ↦
        rw (e, kernel_instances)
          (kernel_instances_more kernel df more (index + 1) rows s (omega arith))
    | inr (start, e) ↦
        let same = slice_more start index df more (omega arith) in
        rw (e, kernel_instances)
          (rw same (kernel_instances_more kernel df more (index + 1) rows _ (omega arith)))
  ]

  -- An instance that has started, and no blank row: it does not end, and no chart is drawn.
  kernel_instances-start :
      (kernel : Text) (df : List (PerfRow Cells)) (index : ℕ) (rows : List (Text × Cells))
      (s : KernelLoop Cells) (start : ℕ)
      → s.start ≡ some start
      → (kernel_instances sets labels throughputs kernel df index (named_rows rows) s).start
        ≡ some start
  unfolding kernel_instances
  kernel_instances-start kernel df index [] s start e = e
  kernel_instances-start kernel df index ((name, c) ∷ rows) s start e =
      kernel_instances-start kernel df (index + 1) rows _ start (rw (e) e)

  kernel_instances-out :
      (kernel : Text) (df : List (PerfRow Cells)) (index : ℕ) (rows : List (Text × Cells))
      (s : KernelLoop Cells)
      → (kernel_instances sets labels throughputs kernel df index (named_rows rows) s).out ≡ s.out
  unfolding kernel_instances
  kernel_instances-out kernel df index [] s = refl
  kernel_instances-out kernel df index ((name, c) ∷ rows) s =
      kernel_instances-out kernel df (index + 1) rows _ ∙ elim (Option-cases s.start) [
        | inl e ↦ elim (Bool-cases (text_eq name kernel)) [
          | inl e' ↦ rw (e, e') refl
          | inr e' ↦ rw (e, e') refl
        ]
        | inr (start, e) ↦ rw e refl
      ]

  kernel_row-start :
      (kernel : Text) (df : List (PerfRow Cells)) (index : ℕ) (c : Cells)
      (rows : List (Text × Cells)) (s : KernelLoop Cells)
      → (start : ℕ) × ((kernel_instances sets labels throughputs kernel df index
            ((some kernel, c) ∷ named_rows rows)
            s).start
          ≡ some start)
  unfolding kernel_instances
  kernel_row-start kernel df index c rows s =
      let same : text_eq kernel kernel ≡ true = (text_eq_iff kernel kernel).1 refl in
      elim (Option-cases s.start) [
        | inl e ↦
            (index, kernel_instances-start kernel df (index + 1) rows _ index (rw (e, same) refl))
        | inr (start, e) ↦
            (start, kernel_instances-start kernel df (index + 1) rows _ start (rw (e) e))
      ]

  last_instance_raised :
      (kernel : Text) (s : KernelLoop Cells) (start : ℕ)
      → 0 < min (length sets) (length labels)
      → s.start ≡ some start
      → last_instance sets labels throughputs kernel s ≡ raised s.out
  unfolding last_instance
  last_instance_raised kernel s start h e =
      let some_metric : ltb 0 (min (length sets) (length labels)) ≡ true = ground arith in
      rw (e, last_instance) (rw (some_metric) refl)

  plots_of-last_instance :
      (kernel : Text) (s : KernelLoop Cells)
      → 0 < min (length sets) (length labels)
      → plots_of (last_instance sets labels throughputs kernel s) ≡ s.out
  unfolding last_instance
  plots_of-last_instance kernel s h = elim (Option-cases s.start) [
    | inl e ↦ rw (e, last_instance) refl
    | inr (start, e) ↦ ap plots_of (last_instance_raised kernel s start h e)
  ]

  -- The loop's variables in front of the first row.
  abbrev first : KernelLoop Cells
  first = record { start = none; number = 0; out = no_plots }

  -- Take a table whose last block of rows has a row of the given kernel, so that an instance of the
  -- kernel is not ended by a blank row, and at least one set of metrics with a label. Then the
  -- analysis of all instances of this kernel ends with an exception; the charts saved and the
  -- messages printed by then are exactly those that the rows in front of that row give alone.
  pub plot_rows_raised :
      (kernel : Text) (before : List (PerfRow Cells)) (c : Cells) (rows : List (Text × Cells))
      → 0 < min (length sets) (length labels)
      → plot_rows sets labels throughputs
          (some kernel)
          0
          (before ++ ((some kernel, c) ∷ named_rows rows))
        ≡ raised (plots_of (plot_rows sets labels throughputs (some kernel) 0 before))
  unfolding plot_rows
  plot_rows_raised kernel before c rows h =
      let tail = (some kernel, c) ∷ named_rows rows in
      let df = before ++ tail in
      let reached = kernel_instances sets labels throughputs kernel df 0 before first in
      let whole = kernel_instances-append kernel df 0 before tail first in
      let (start, begun) = kernel_row-start kernel df (0 + length before) c rows reached in
      last_instance_raised kernel (kernel_instances sets labels throughputs kernel df 0 df first)
        start h (ap (λ s. KernelLoop.start s) whole ∙ begun)
      ∙ ap raised (
          ap (λ s. KernelLoop.out s) whole
          ∙ kernel_instances-out kernel df (0 + length before) ((kernel, c) ∷ rows) reached
          ∙ ap (λ s. KernelLoop.out s)
              (kernel_instances_more kernel before tail 0 before first (omega arith))
          ∙ sym (
              plots_of-last_instance kernel
                (kernel_instances sets labels throughputs kernel before 0 before first) h))
