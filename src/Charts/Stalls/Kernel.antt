-- ===== src/Charts/Stalls/Kernel.antt =====
-- The rows of one kernel in a table of stalls.
use pti_gpu_itt_only.Base.{
  ℕ, ◌+◌, ◌≤◌, ◌≡◌, ◌≢◌, ◌∙◌, refl, ap, arith, List, [], ◌∷◌, ◌++◌, none, some, length,
  slice-middle, All, Bool-cases, inl, inr, ◌⊎◌,
}
use pti_gpu_itt_only.Text.{Text, text_eq, text_eq_iff}
use pti_gpu_itt_only.Charts.Paging.{StallRow}
use pti_gpu_itt_only.Charts.Stalls.{find_rows, kernel_rows}
use pti_gpu_itt_only.Charts.{or_end}

-- The rows do not begin with one of the kernel.
abbrev pub Ends : Text → List StallRow → Type 0
Ends kernel [] = Unit
Ends kernel (row ∷ rows) = row.kernel ≢ kernel

-- The rows are those of the kernel, at least one, that stand together first: `before` them no row
-- is the kernel's, and the row behind them is not.
pub record FirstRun (kernel : Text) (df rows : List StallRow) : Type 0 where
  pub before : List StallRow
  pub after : List StallRow
  pub whole : df ≡ before ++ (rows ++ after)
  pub none_before : All (λ row. StallRow.kernel row ≢ kernel) before
  pub of_kernel : All (λ row. StallRow.kernel row ≡ kernel) rows
  pub not_empty : 1 ≤ length rows
  pub ends : Ends kernel after

record RunEnd (kernel : Text) (index start : ℕ) (rest : List StallRow) : Type 0 where
  pub this : List StallRow
  pub after : List StallRow
  pub whole : rest ≡ this ++ after
  pub of_kernel : All (λ row. StallRow.kernel row ≡ kernel) this
  pub ends : Ends kernel after
  pub begun : (find_rows kernel index rest (some start)).0 ≡ some start
  pub at :
      or_end (find_rows kernel index rest (some start)).1 (index + length rest)
      ≡ index + length this

find_rows-RunEnd :
    (kernel : Text) (index start : ℕ) (rest : List StallRow) → RunEnd kernel index start rest
unfolding find_rows
find_rows-RunEnd kernel index start [] = record {
  this = [];
  after = [];
  whole = refl;
  of_kernel = tt;
  ends = tt;
  begun = refl;
  at = refl;
}
find_rows-RunEnd kernel index start (row ∷ rest) = elim (Bool-cases (text_eq row.kernel kernel)) [
  | inl equal ↦
      let more = find_rows-RunEnd kernel (index + 1) start rest in
      record {
        this = row ∷ more.this;
        after = more.after;
        whole = ap (◌∷◌ row) more.whole;
        of_kernel = ((text_eq_iff row.kernel kernel).0 equal, more.of_kernel);
        ends = more.ends;
        begun = rw (equal, find_rows) more.begun;
        at =
            rw (equal, find_rows)
              (ap (or_end (find_rows kernel (index + 1) rest (some start)).1) (omega arith)
                ∙ more.at
                ∙ omega arith);
      }
  | inr unequal ↦ record {
    this = [];
    after = row ∷ rest;
    whole = refl;
    of_kernel = tt;
    ends = ground (arith, text_eq_iff row.kernel kernel);
    begun = rw (unequal, find_rows) refl;
    at = rw (unequal, find_rows) (omega arith);
  }
]

record RunStart (kernel : Text) (index : ℕ) (rest : List StallRow) : Type 0 where
  pub before : List StallRow
  pub this : List StallRow
  pub after : List StallRow
  pub whole : rest ≡ before ++ (this ++ after)
  pub none_before : All (λ row. StallRow.kernel row ≢ kernel) before
  pub of_kernel : All (λ row. StallRow.kernel row ≡ kernel) this
  pub not_empty : 1 ≤ length this
  pub ends : Ends kernel after
  pub begun : (find_rows kernel index rest none).0 ≡ some (index + length before)
  pub at :
      or_end (find_rows kernel index rest none).1 (index + length rest)
      ≡ index + length before + length this

find_rows-RunStart :
    (kernel : Text) (index : ℕ) (rest : List StallRow)
    → (((find_rows kernel index rest none).0 ≡ none)
        × All (λ row. StallRow.kernel row ≢ kernel) rest)
      ⊎ RunStart kernel index rest
unfolding find_rows
find_rows-RunStart kernel index [] = inl (refl, tt)
find_rows-RunStart kernel index (row ∷ rest) = elim (Bool-cases (text_eq row.kernel kernel)) [
  | inl equal ↦
      let more = find_rows-RunEnd kernel (index + 1) index rest in
      inr (record {
        before = [];
        this = row ∷ more.this;
        after = more.after;
        whole = ap (◌∷◌ row) more.whole;
        none_before = tt;
        of_kernel = ((text_eq_iff row.kernel kernel).0 equal, more.of_kernel);
        not_empty = omega arith;
        ends = more.ends;
        begun = rw (equal, find_rows) (more.begun ∙ ap some (omega arith));
        at =
            rw (equal, find_rows)
              (ap (or_end (find_rows kernel (index + 1) rest (some index)).1) (omega arith)
                ∙ more.at
                ∙ omega arith);
      })
  | inr unequal ↦
      let differs : row.kernel ≢ kernel = ground (arith, text_eq_iff row.kernel kernel) in
      elim (find_rows-RunStart kernel (index + 1) rest) [
        | inl (not_found, others) ↦ inl (rw (unequal, find_rows) not_found, (differs, others))
        | inr more ↦ inr (record {
          before = row ∷ more.before;
          this = more.this;
          after = more.after;
          whole = ap (◌∷◌ row) more.whole;
          none_before = (differs, more.none_before);
          of_kernel = more.of_kernel;
          not_empty = more.not_empty;
          ends = more.ends;
          begun = rw (unequal, find_rows) (more.begun ∙ ap some (omega arith));
          at =
              rw (unequal, find_rows)
                (ap (or_end (find_rows kernel (index + 1) rest none).1) (omega arith)
                  ∙ more.at
                  ∙ omega arith);
        })
      ]
]

-- Either the kernel's rows are not found, and no row is the kernel's; or they are found, and are
-- those that stand together first.
pub kernel_rows-FirstRun :
    (kernel : Text) (df : List StallRow)
    → ((kernel_rows kernel df ≡ none) × All (λ row. StallRow.kernel row ≢ kernel) df)
      ⊎ ((rows : List StallRow) × (kernel_rows kernel df ≡ some rows) × FirstRun kernel df rows)
unfolding kernel_rows
kernel_rows-FirstRun kernel df = elim (find_rows-RunStart kernel 0 df) [
  | inl (not_found, others) ↦ inl (rw (not_found, kernel_rows) refl, others)
  | inr found ↦ inr (
    found.this,
    rw (found.begun, kernel_rows)
        (ap some (
          slice-middle (0 + length found.before) (or_end (find_rows kernel 0 df none).1 (length df))
            df found.before found.this found.after found.whole (omega arith)
            (ap (or_end (find_rows kernel 0 df none).1) (omega arith) ∙ found.at ∙ omega arith))),
    record {
      before = found.before;
      after = found.after;
      whole = found.whole;
      none_before = found.none_before;
      of_kernel = found.of_kernel;
      not_empty = found.not_empty;
      ends = found.ends;
    },
  )
]
