-- ===== src/Stalls/Report.antt =====
-- The report that `AnalyzeStalls`, in `tools/unitrace/scripts/metrics/analyzeperfmetrics.py`, puts
-- together: the stalled instructions of each type, with their source and what they wait for. A table of
-- stalls is the list of its rows. How pandas sorts rows by the events of a type is a parameter, for it
-- leaves the order of rows with as many events open.
use pti_gpu_itt_only.Base.{
  ℕ, zero, suc, ◌+◌, ◌/◌, ◌%◌, Bool, true, false, ◌&&◌, List, [], ◌∷◌, ◌++◌, Option, none, some,
  if◌then◌else◌, get_elem?, take, drop, ltb, ◌==◌, ◌>>=◌,
}
use pti_gpu_itt_only.Text.{Text, codes}
use pti_gpu_itt_only.Cfg.{matches_comment}
use pti_gpu_itt_only.Stalls.Search.{Search, Places, Rows, or_first, is_found, is_empty}

pub data StallType : Type 0 where
  sbid : StallType
  control : StallType
  pipe : StallType
  send : StallType
  dist : StallType
  sync : StallType
  instr_fetch : StallType
  other : StallType

-- A row of the table: the address, and the events of each type.
pub record StalledRow : Type 0 where
  pub pc : ℕ
  pub events : StallType → ℕ

-- `df[df[t] > 0]`
unfoldable pub without_zeros : StallType → List StalledRow → List StalledRow
without_zeros t [] = []
without_zeros t (row ∷ rows) =
    let rest = without_zeros t rows in if ltb 0 (row.events t) then row ∷ rest else rest

-- The positions of the source line and of the source file of an instruction.
abbrev pub Source : Type 0
Source = Option ℕ × Option ℕ

-- `str( n )`
unfoldable pub digits_of : ℕ → ℕ → Text
digits_of zero n = []
digits_of (suc fuel) n =
    let rest = digits_of fuel (n / 10) in
    if ltb n 10 then (b'0' + n) ∷ [] else rest ++ (b'0' + n % 10) ∷ []

-- How the composing ends or goes on: the report so far, and the variables `source_line_stalled` and
-- `source_file_stalled`, which are not bound before an instruction was found; or an exception, or a search
-- that does not end within the fuel.
pub data Composing : Type 0 where
  composed : Text → Option Source → Composing
  failed : Composing
  endless : Composing

-- A row of the assembly as it is shown, and a comment without its slashes.
abbrev pub shown : Text → List Text → ℕ → Option Text
shown indent instructions i = do
  row ← get_elem? instructions i
  some (indent ++ (row ++ codes "\n"))

abbrev pub shown_comment : Text → List Text → ℕ → Option Text
shown_comment indent instructions i = do
  row ← get_elem? instructions i
  some (indent ++ (drop 3 row ++ codes "\n"))

-- The source line and file of a stalled instruction.
unfoldable pub source_text : List Text → Source → Option Text
source_text instructions (none, file) = some []
source_text instructions (some line, none) = shown_comment (codes "  ") instructions line
source_text instructions (some line, some file) = do
  first ← shown_comment (codes "  ") instructions line
  second ← shown_comment (codes "  ") instructions file
  some (first ++ second)

abbrev pub place_of : ℕ → Places → Option ℕ
place_of i [] = none
place_of i ((j, v) ∷ places) = if j == i then some v else place_of i places

-- An instruction that is waited for, with its source line, and its file where that is known.
unfoldable pub cause_text : List Text → Places → ℕ × ℕ → Option Text
cause_text instructions files (i, line) = do
  row ← shown (codes "    ") instructions i
  source_line ← shown_comment (codes "    ") instructions line
  source_file ← elim (place_of i files) [
    | some file ↦ shown_comment (codes "    ") instructions file
    | none ↦ some (codes "    File: unknown\n")
  ]
  some (codes "  instruction\n" ++ (row ++ (source_line ++ source_file)))

unfoldable pub causes_text : List Text → Places → Places → Option Text
causes_text instructions files [] = some []
causes_text instructions files (cause ∷ causes) = do
  text ← cause_text instructions files cause
  rest ← causes_text instructions files causes
  some (text ++ rest)

-- The instructions that are waited for whose source line is not known.
unfoldable pub unresolved_text : List Text → List ℕ → Option Text
unresolved_text instructions [] = some []
unresolved_text instructions (i ∷ is) = do
  row ← shown (codes "    ") instructions i
  rest ← unresolved_text instructions is
  some (codes "  instruction\n" ++ (row ++ rest))

-- The entry of an instruction that waits for tokens.
unfoldable pub sbid_text : List Text → Text → Search → Option Text
sbid_text instructions ins s = do
  source ← source_text instructions (s.line, s.file)
  causes ← causes_text instructions s.files s.lines
  unresolved ← unresolved_text instructions s.no_line
  let waits =
      if is_empty s.lines && is_empty s.no_line
      then codes "is stalled\n"
      else codes "is stalled potentially by\n" ++ (causes ++ unresolved)
  some (codes "\nInstruction\n  " ++ (ins ++ (codes "\n" ++ (source ++ waits))))

-- The entry of another stalled instruction.
unfoldable pub other_text : List Text → Text → Source → Option Text
other_text instructions ins source = do
  text ← source_text instructions source
  some (codes "\nInstruction\n  " ++ (ins ++ (codes "\n" ++ (text ++ codes "is stalled\n"))))

-- The search backwards for the source of another stalled instruction, until both are found.
unfoldable pub source_above : Rows → Source → Source
source_above [] source = source
source_above ((pos, row) ∷ rows) (line, file) =
    let line' = if matches_comment row (codes "Line") then or_first line pos else line in
    let file' = if matches_comment row (codes "File") then or_first file pos else file in
    let rest = source_above rows (line', file') in
    if is_found line' && is_found file' then (line', file') else rest

-- Whether some row names a source line.
unfoldable pub has_source : List Text → Bool
has_source [] = false
has_source (row ∷ rows) =
    let rest = has_source rows in if matches_comment row (codes "Line") then true else rest

-- `numtopstalls`, where `none` is a negative number: the rows that are reported.
abbrev pub limited {ℓ} : {A : Type ℓ} → Option ℕ → List A → List A
limited none rows = rows
limited (some n) rows = take n rows

-- An entry is added to the report.
abbrev pub with_entry : Text → Source → Option Text → Composing
with_entry report source none = failed
with_entry report source (some entry) = composed (report ++ entry) (some source)
