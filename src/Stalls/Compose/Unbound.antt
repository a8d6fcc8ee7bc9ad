-- ===== src/Stalls/Compose/Unbound.antt =====
-- The variables of the source where no instruction was found before.
use pti_gpu_itt_only.Base.{
  ℕ, zero, suc, ◌≡◌, ◌∙◌, refl, ap, ◌⊎◌, inl, inr, false, List, [], ◌∷◌, ◌++◌, Option, none, some,
  get_elem?, Option-cases,
}
use pti_gpu_itt_only.Text.{Text, codes}
use pti_gpu_itt_only.Asm.{find_stalled}
use pti_gpu_itt_only.Cfg.{Blocks}
use pti_gpu_itt_only.Stalls.Report.{
  StallType, sbid, StalledRow, without_zeros, Composing, composed, failed, limited,
}
use pti_gpu_itt_only.Stalls.Compose.{
  stars_line, type_name, other_types, top_rows, sbid_rows, other_entry, other_rows, each_type,
  all_types,
}

-- Some of the rows' instructions is found in the assembly.
pub data SomeFound (instructions : List Text) : List StalledRow → Type 0 where
  here :
      {row : StalledRow} {rows : List StalledRow} (addr : ℕ)
      → find_stalled row.pc instructions ≡ some addr
      → SomeFound instructions (row ∷ rows)
  there :
      {row : StalledRow} {rows : List StalledRow}
      → SomeFound instructions rows
      → SomeFound instructions (row ∷ rows)

pub rows-cases :
    (rows : List StalledRow)
    → (rows ≡ []) ⊎ ((first : StalledRow) × (others : List StalledRow) × (rows ≡ first ∷ others))
rows-cases [] = inl refl
rows-cases (first ∷ others) = inr (first, others, refl)

module _ (sort_values : StallType → List StalledRow → List StalledRow) (numtopstalls : Option ℕ)
    (instructions : List Text) (bbs : Blocks) (df : List StalledRow) where
  -- Some of the types has events, and reports a row whose instruction is found.
  pub data SomeReported : List StallType → Type 0 where
    this :
        {t : StallType} {types : List StallType} (first : StalledRow) (others : List StalledRow)
        → without_zeros t df ≡ first ∷ others
        → SomeFound instructions (top_rows sort_values numtopstalls t df)
        → SomeReported (t ∷ types)
    later : {t : StallType} {types : List StallType} → SomeReported types → SomeReported (t ∷ types)

  abbrev rows_without : List StalledRow → Text → Composing
  rows_without rows report =
      other_rows sort_values numtopstalls instructions bbs false rows report none

  row_unbound :
      (row : StalledRow) (rows : List StalledRow) (report : Text) (addr : ℕ)
      → find_stalled row.pc instructions ≡ some addr
      → rows_without (row ∷ rows) report ≡ failed
  unfolding other_rows other_entry
  row_unbound row rows report addr e = elim (Option-cases (get_elem? instructions addr)) [
    | inl k ↦ rw (e, other_rows) (rw k refl)
    | inr (ins, k) ↦ rw (e, other_rows) (rw k refl)
  ]

  other_rows-unbound :
      (rows : List StalledRow) (report : Text)
      → (rows_without rows report ≡ failed) ⊎ (rows_without rows report ≡ composed report none)
  unfolding other_rows
  other_rows-unbound [] report = inr refl
  other_rows-unbound (row ∷ rows) report = elim (Option-cases (find_stalled row.pc instructions)) [
    | inl e ↦ rw (e, other_rows) (other_rows-unbound rows report)
    | inr (addr, e) ↦ inl (row_unbound row rows report addr e)
  ]

  other_rows-found :
      (rows : List StalledRow) (report : Text)
      → SomeFound instructions rows
      → rows_without rows report ≡ failed
  unfolding other_rows
  other_rows-found [] report found = elim found [ ]
  other_rows-found (row ∷ rows) report (here addr e) = row_unbound row rows report addr e
  other_rows-found (row ∷ rows) report (there found) =
      elim (Option-cases (find_stalled row.pc instructions)) [
        | inl e ↦ rw (e, other_rows) (other_rows-found rows report found)
        | inr (addr, e) ↦ row_unbound row rows report addr e
      ]

  abbrev types_without : List StallType → Text → Composing
  types_without types report =
      each_type sort_values numtopstalls instructions bbs false types df report none

  abbrev type_report : StallType → Text → Text
  type_report t report = report ++ (stars_line ++ (type_name t ++ codes " Stalls: \n"))

  each_type-failed :
      (t : StallType) (types : List StallType) (report : Text) (first : StalledRow)
      (others : List StalledRow)
      → without_zeros t df ≡ first ∷ others
      → rows_without (top_rows sort_values numtopstalls t df) (type_report t report) ≡ failed
      → types_without (t ∷ types) report ≡ failed
  unfolding each_type
  each_type-failed t types report first others e h = rw (e, each_type) (rw h refl)

  each_type-passed :
      (t : StallType) (types : List StallType) (report : Text) (first : StalledRow)
      (others : List StalledRow)
      → without_zeros t df ≡ first ∷ others
      → rows_without (top_rows sort_values numtopstalls t df) (type_report t report)
        ≡ composed (type_report t report) none
      → types_without (t ∷ types) report ≡ types_without types (type_report t report)
  unfolding each_type
  each_type-passed t types report first others e h = rw (e, each_type) (rw h refl)

  each_type-without :
      (t : StallType) (types : List StallType) (report : Text)
      → without_zeros t df ≡ []
      → types_without (t ∷ types) report ≡ types_without types report
  unfolding each_type
  each_type-without t types report e = rw (e, each_type) refl

  each_type-reported :
      (types : List StallType) (report : Text)
      → SomeReported types
      → types_without types report ≡ failed
  each_type-reported [] report reported = elim reported [ ]
  each_type-reported (t ∷ types) report (this first others e found) =
      each_type-failed t types report first others e
        (other_rows-found (top_rows sort_values numtopstalls t df) (type_report t report) found)
  each_type-reported (t ∷ types) report (later reported) = elim (rows-cases (without_zeros t df)) [
    | inl e ↦ each_type-without t types report e ∙ each_type-reported types report reported
    | inr (first, others, e) ↦
        elim (other_rows-unbound (top_rows sort_values numtopstalls t df) (type_report t report)) [
          | inl h ↦ each_type-failed t types report first others e h
          | inr h ↦
              each_type-passed t types report first others e h
              ∙ each_type-reported types (type_report t report) reported
        ]
  ]

  limited-nil : (n : Option ℕ) → limited {A = StalledRow} n [] ≡ []
  limited-nil none = refl
  limited-nil (some zero) = refl
  limited-nil (some (suc n)) = refl

  no_top_rows :
      sort_values sbid [] ≡ []
      → without_zeros sbid df ≡ []
      → top_rows sort_values numtopstalls sbid df ≡ []
  unfolding top_rows
  no_top_rows sorted no_sbid =
      ap (λ rows. limited numtopstalls (sort_values sbid rows)) no_sbid
      ∙ (ap (limited numtopstalls) sorted ∙ limited-nil numtopstalls)

  -- Let the assembly name no source lines, and let no row of the table have stalls of scoreboard tokens,
  -- while some other type has events and reports a row whose instruction is found. Then the report is not
  -- composed: a variable is read that is not bound. Sorting no rows gives none.
  pub all_types-unbound :
      (fuel : ℕ) (report : Text)
      → sort_values sbid [] ≡ []
      → without_zeros sbid df ≡ []
      → SomeReported other_types
      → all_types sort_values numtopstalls instructions bbs false fuel df report ≡ failed
  unfolding all_types sbid_rows
  all_types-unbound fuel report sorted no_sbid reported =
      rw (no_top_rows sorted no_sbid, all_types)
        (each_type-reported other_types (report ++ (stars_line ++ codes "Sbid Stalls: \n"))
          reported)
