-- ===== src/Stalls/Compose/Composed.antt =====
-- The loops over the other types of stalls, for an assembly with source lines.
use pti_gpu_itt_only.Base.{
  ℕ, zero, suc, ◌+◌, ◌-◌, ◌<◌, ◌≡◌, ◌∙◌, refl, ap, arith, inl, inr, true, ◌&&◌, List, [], ◌∷◌, ◌++◌,
  Option, none, some, length, drop, get_elem?, slice, All, All-take, All-reverse, Option-cases,
  Bool-cases,
}
use mathlib.Core.Path.{subst}
use pti_gpu_itt_only.Text.{Text, codes, starts_with}
use pti_gpu_itt_only.Asm.{find_stalled, is_instruction, mark}
use pti_gpu_itt_only.Cfg.{Blocks, matches_comment}
use pti_gpu_itt_only.Stalls.Search.{Rows, numbered, rows_back}
use pti_gpu_itt_only.Stalls.Report.{
  StallType, sbid, StalledRow, without_zeros, Source, Composing, composed, source_text, other_text,
  source_above,
}
use pti_gpu_itt_only.Stalls.Compose.{
  stars_line, end_line, type_name, other_types, top_rows, sbid_rows, other_entry, other_rows,
  each_type, all_types,
}
use pti_gpu_itt_only.Stalls.Compose.Above.{nearest, source_above-nearest}
use pti_gpu_itt_only.Stalls.Compose.Unbound.{rows-cases}

abbrev AreBelow : ℕ → Rows → Type 0
AreBelow k rows = All {A = ℕ × Text} (λ r. r.0 < k) rows

numbered-AreBelow : (n : ℕ) (rows : List Text) → AreBelow (n + length rows) (numbered n rows)
unfolding numbered
numbered-AreBelow n [] = tt
numbered-AreBelow n (row ∷ rows) = (
  omega arith,
  subst (λ k. AreBelow k (numbered (n + 1) rows)) (omega arith) (numbered-AreBelow (n + 1) rows),
)

rows_back-AreBelow :
    (instructions : List Text) (addr : ℕ)
    → AreBelow (length instructions) (rows_back instructions 0 addr)
unfolding rows_back
rows_back-AreBelow instructions addr =
    All-reverse (λ r. r.0 < length instructions) (slice 0 addr (numbered 0 instructions))
      (All-take (λ r. r.0 < length instructions) (addr - 0) (numbered 0 instructions)
        (subst (λ k. AreBelow k (numbered 0 instructions)) (omega arith)
          (numbered-AreBelow 0 instructions)))

abbrev IsBelow : ℕ → Option ℕ → Type 0
IsBelow k none = Unit
IsBelow k (some p) = p < k

nearest-IsBelow :
    (k : ℕ) (word : Text) (rows : Rows) → AreBelow k rows → IsBelow k (nearest word rows)
nearest-IsBelow k word [] h = tt
nearest-IsBelow k word ((pos, row) ∷ rows) (h, hs) = elim (Bool-cases (matches_comment row word)) [
  | inl e ↦ rw e h
  | inr e ↦ rw e (nearest-IsBelow k word rows hs)
]

get_elem?-below : (xs : List Text) (i : ℕ) → i < length xs → (x : Text) × (get_elem? xs i ≡ some x)
get_elem?-below [] i h = absurd (omega arith)
get_elem?-below (x ∷ xs) zero h = (x, refl)
get_elem?-below (x ∷ xs) (suc i) h = get_elem?-below xs i (omega arith)

source_text-below :
    (instructions : List Text) (line file : Option ℕ)
    → IsBelow (length instructions) line
    → IsBelow (length instructions) file
    → (text : Text) × (source_text instructions (line, file) ≡ some text)
unfolding source_text
source_text-below instructions none file h k = ([], refl)
source_text-below instructions (some l) none h k =
    let (row, e) = get_elem?-below instructions l h in
    (codes "  " ++ (drop 3 row ++ codes "\n"), rw e refl)
source_text-below instructions (some l) (some f) h k =
    let (row, e) = get_elem?-below instructions l h in
    let (row', e') = get_elem?-below instructions f k in
    (
      (codes "  " ++ (drop 3 row ++ codes "\n")) ++ (codes "  " ++ (drop 3 row' ++ codes "\n")),
      rw e (rw e' refl),
    )

find_stalled-below :
    (pc : ℕ) (rows : List Text) (addr : ℕ) → find_stalled pc rows ≡ some addr → addr < length rows
unfolding find_stalled
find_stalled-below pc [] addr h = absurd (ground arith)
find_stalled-below pc (row ∷ rows) addr h =
    elim (Bool-cases (is_instruction row && starts_with row (mark pc))) [
      | inl e ↦ let same : 0 ≡ addr = cc (rw e at h) in omega arith
      | inr e ↦ elim (Option-cases (find_stalled pc rows)) [
        | inl k ↦ absurd (ground (arith, rw k at (rw e at h)))
        | inr (i, k) ↦
            let same : i + 1 ≡ addr = cc (rw k at (rw e at h)) in
            omega (arith, find_stalled-below pc rows i k)
      ]
    ]

module _ (sort_values : StallType → List StalledRow → List StalledRow) (numtopstalls : Option ℕ)
    (instructions : List Text) (bbs : Blocks) where
  -- A report is composed, with some variables.
  abbrev IsComposed : Composing → Type 0
  IsComposed c = (report : Text) × (source : Option Source) × (c ≡ composed report source)

  other_entry-IsComposed :
      (report : Text) (source : Option Source) (addr : ℕ) (ins : Text)
      → IsComposed
          (other_entry sort_values numtopstalls instructions bbs true report source addr ins)
  unfolding other_entry other_text
  other_entry-IsComposed report source addr ins =
      let rows = rows_back instructions 0 addr in
      let below = rows_back-AreBelow instructions addr in
      let line = nearest (codes "Line") rows in
      let file = nearest (codes "File") rows in
      let (text, e) =
        source_text-below instructions line file
          (nearest-IsBelow (length instructions) (codes "Line") rows below)
          (nearest-IsBelow (length instructions) (codes "File") rows below) in
      let e' : source_text instructions (source_above rows (none, none)) ≡ some text =
        ap (source_text instructions) (source_above-nearest rows none none) ∙ e in
      (
        report
            ++ (codes "\nInstruction\n  "
                ++ (ins ++ (codes "\n" ++ (text ++ codes "is stalled\n")))),
        some (source_above rows (none, none)),
        rw (e', other_entry) refl,
      )

  other_rows-IsComposed :
      (rows : List StalledRow) (report : Text) (source : Option Source)
      → IsComposed (other_rows sort_values numtopstalls instructions bbs true rows report source)
  unfolding other_rows
  other_rows-IsComposed [] report source = (report, source, refl)
  other_rows-IsComposed (row ∷ rows) report source =
      elim (Option-cases (find_stalled row.pc instructions)) [
        | inl e ↦
            let (r, s, h) = other_rows-IsComposed rows report source in (r, s, rw (e, other_rows) h)
        | inr (addr, e) ↦
            let (ins, k) =
              get_elem?-below instructions addr (find_stalled-below row.pc instructions addr e) in
            let (r, s, h) = other_entry-IsComposed report source addr ins in
            let (r', s', h') = other_rows-IsComposed rows r s in
            (r', s', rw (e, other_rows) (rw k (rw h h')))
      ]

  each_type-IsComposed :
      (types : List StallType) (df : List StalledRow) (report : Text) (source : Option Source)
      → IsComposed (each_type sort_values numtopstalls instructions bbs true types df report source)
  unfolding each_type
  each_type-IsComposed [] df report source = (report ++ end_line, source, refl)
  each_type-IsComposed (t ∷ types) df report source = elim (rows-cases (without_zeros t df)) [
    | inl e ↦
        let (r, s, h) = each_type-IsComposed types df report source in (r, s, rw (e, each_type) h)
    | inr (first, others, e) ↦
        let (r, s, h) =
          other_rows-IsComposed (top_rows sort_values numtopstalls t df)
            (report ++ (stars_line ++ (type_name t ++ codes " Stalls: \n"))) source in
        let (r', s', h') = each_type-IsComposed types df r s in
        (r', s', rw (e, each_type) (rw h h'))
  ]

  -- Let the assembly name source lines, and let the part of the report on scoreboard tokens be composed.
  -- Then the whole report is composed, for any table, order of rows and limit: no position out of the
  -- assembly is read.
  pub all_types-composed :
      (fuel : ℕ) (df : List StalledRow) (head first : Text) (source : Option Source)
      → sbid_rows sort_values numtopstalls instructions bbs true fuel
          (top_rows sort_values numtopstalls sbid df)
          (head ++ (stars_line ++ codes "Sbid Stalls: \n"))
          none
        ≡ composed first source
      → (report : Text) × (source' : Option Source) × (all_types sort_values numtopstalls
            instructions bbs true fuel df head
          ≡ composed report source')
  unfolding all_types
  all_types-composed fuel df head first source e =
      let (r, s, h) = each_type-IsComposed other_types df first source in
      (r, s, rw (e, all_types) h)
