-- ===== src/Asm/Choice.antt =====
-- The choice of a kernel's assembly file at the start of `AnalyzeStalls`, in
-- `tools/unitrace/scripts/metrics/analyzeperfmetrics.py`. The demangler is another program, and a
-- parameter here: it gives a name for a name.
pub mod Latest
use pti_gpu_itt_only.Base.{
  ℕ, zero, suc, ◌+◌, ◌≤◌, ◌≡◌, ◌∙◌, ◌⊎◌, refl, ap, arith, Bool, true, false, ◌&&◌, ◌||◌, List, [],
  ◌∷◌, Option, none, some, if◌then◌else◌, length, get_elem?, All, ◌==◌, ltb, inl, inr, Bool-cases,
}
use pti_gpu_itt_only.Text.{Text, codes, starts_with, text_eq, is_space}

-- A file of the shader dump: its path and its rows.
abbrev pub DumpFile : Type 0
DumpFile = Text × List Text

-- The words of `row.split()`. The flag tells whether the last character was part of a word.
unfoldable pub words_from : Bool → Text → List Text
words_from inside [] = if inside then [] ∷ [] else []
words_from inside (c ∷ s) =
    let blank = is_space c in
    let rest = words_from (if blank then false else true) s in
    if blank
    then (if inside then [] ∷ rest else rest)
    else elim rest [ [] ↦ (c ∷ []) ∷ [] | w ∷ ws ↦ (c ∷ w) ∷ ws ]

-- `f.endswith(suffix)`
unfoldable pub ends_with : Text → Text → Bool
ends_with [] suffix = text_eq [] suffix
ends_with (c ∷ s) suffix = text_eq (c ∷ s) suffix || ends_with s suffix

module _ (demangle : Text → Text) (kernel : Text) where
  -- How often a file names the kernel; `none` is the `IndexError` of a row with no name.
  unfoldable pub names_kernel : List Text → Option ℕ
  names_kernel [] = some 0
  names_kernel (row ∷ rows) =
      let rest = names_kernel rows in
      if starts_with row (codes "//.kernel")
      then elim (get_elem? (words_from false row) 1) [
        | none ↦ none
        | some name ↦ elim rest [
          | none ↦ none
          | some n ↦ some (if text_eq kernel (demangle name) then n + 1 else n)
        ]
      ]
      else rest

  abbrev pub copies : ℕ → Text → List Text → List Text
  copies zero path rest = rest
  copies (suc n) path rest = path ∷ copies n path rest

  -- `asmfiles`: the path of each `.asm` file, as often as the file names the kernel.
  unfoldable pub asm_files : List DumpFile → Option (List Text)
  asm_files [] = some []
  asm_files ((path, rows) ∷ files) =
      let rest = asm_files files in
      if ends_with path (codes ".asm")
      then elim (names_kernel rows) [
        | none ↦ none
        | some n ↦ elim rest [ none ↦ none | some paths ↦ some (copies n path paths) ]
      ]
      else rest

-- `a < b` on texts
unfoldable pub text_lt : Text → Text → Bool
text_lt [] [] = false
text_lt [] (y ∷ b) = true
text_lt (x ∷ a) [] = false
text_lt (x ∷ a) (y ∷ b) = ltb x y || (x == y && text_lt a b)

-- The first loop: the longest name so far, and its length.
unfoldable pub pick_longest : List Text → Text → ℕ → Text × ℕ
pick_longest [] asm longest = (asm, longest)
pick_longest (f ∷ files) asm longest =
    pick_longest files (if ltb longest (length f) then f else asm)
      (if ltb longest (length f) then length f else longest)

-- The second loop: the largest of the longest names.
unfoldable pub pick_largest : ℕ → List Text → Text → Text
pick_largest longest [] asm = asm
pick_largest longest (f ∷ files) asm =
    pick_largest longest files (if length f == longest && text_lt asm f then f else asm)

-- The file to analyse; `none` where no file names the kernel.
unfoldable pub choose_asm : List Text → Option Text
choose_asm [] = none
choose_asm (f ∷ []) = some f
choose_asm (f ∷ g ∷ files) =
    let (asm, longest) = pick_longest (f ∷ g ∷ files) f 0 in
    some (pick_largest longest (f ∷ g ∷ files) asm)
