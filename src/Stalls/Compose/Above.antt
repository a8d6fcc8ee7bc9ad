-- ===== src/Stalls/Compose/Above.antt =====
-- The source that is shown of a stalled instruction of another type.
use pti_gpu_itt_only.Base.{
  ℕ, ◌≡◌, ◌∙◌, refl, arith, true, ◌&&◌, [], ◌∷◌, Option, none, some, if◌then◌else◌, Bool-cases, inl,
  inr,
}
use pti_gpu_itt_only.Text.{Text, codes}
use pti_gpu_itt_only.Cfg.{matches_comment}
use pti_gpu_itt_only.Stalls.Search.{Rows, or_first, is_found}
use pti_gpu_itt_only.Stalls.Report.{Source, source_above}

-- The first of the rows that is such a comment.
abbrev pub nearest : Text → Rows → Option ℕ
nearest word [] = none
nearest word ((pos, row) ∷ rows) = if matches_comment row word then some pos else nearest word rows

abbrev pub or_nearest : Option ℕ → Option ℕ → Option ℕ
or_nearest none later = later
or_nearest (some pos) later = some pos

found_stays : (a later : Option ℕ) → is_found a ≡ true → a ≡ or_nearest a later
found_stays none later h = absurd (ground arith)
found_stays (some pos) later h = refl

step_nearest :
    (word : Text) (pos : ℕ) (row : Text) (rows : Rows) (a : Option ℕ)
    → or_nearest (if matches_comment row word then or_first a pos else a) (nearest word rows)
      ≡ or_nearest a (nearest word ((pos, row) ∷ rows))
step_nearest word pos row rows none = elim (Bool-cases (matches_comment row word)) [
  | inl e ↦ rw e refl
  | inr e ↦ rw e refl
]
step_nearest word pos row rows (some old) = elim (Bool-cases (matches_comment row word)) [
  | inl e ↦ rw e refl
  | inr e ↦ rw e refl
]

-- The search backwards finds, of the rows in front of an instruction, the nearest one that names a source
-- line and the nearest one that names a source file, beside what is known already, though it stops as soon
-- as it has both.
pub source_above-nearest :
    (rows : Rows) (line file : Option ℕ)
    → source_above rows (line, file) ≡ (
      or_nearest line (nearest (codes "Line") rows),
      or_nearest file (nearest (codes "File") rows),
    )
unfolding source_above
source_above-nearest [] none none = refl
source_above-nearest [] (some l) none = refl
source_above-nearest [] none (some f) = refl
source_above-nearest [] (some l) (some f) = refl
source_above-nearest ((pos, row) ∷ rows) line file =
    let line' = if matches_comment row (codes "Line") then or_first line pos else line in
    let file' = if matches_comment row (codes "File") then or_first file pos else file in
    ended line' file' (source_above rows (line', file')) (source_above-nearest rows line' file')
    ∙ cc (
      step_nearest (codes "Line") pos row rows line,
      step_nearest (codes "File") pos row rows file,
    )
  where
    ended :
        (l f : Option ℕ) (rest : Source)
        → rest
          ≡ (or_nearest l (nearest (codes "Line") rows), or_nearest f (nearest (codes "File") rows))
        → Path Source
            (if is_found l && is_found f then (l, f) else rest)
            (or_nearest l (nearest (codes "Line") rows), or_nearest f (nearest (codes "File") rows))
    ended none f rest e = e
    ended (some l) none rest e = e
    ended (some l) (some f) rest e = refl
