-- ===== src/Summary/Csv.antt =====
-- The tables of a summary file: `skip_to`, `skip_empty`, `stop_on_empty` and `csv_from` of
-- `tools/unitrace/scripts/summary/summary.py`, with what `csv.DictReader` does. A file is the list of its
-- lines without their ends. A field in quotation marks that runs over a line's end is not modelled.
use pti_gpu_itt_only.Base.{
  ℕ, ◌+◌, ◌-◌, ◌*◌, Bool, true, false, ◌&&◌, List, [], ◌∷◌, ◌==◌, leb, Option, none, some,
  if◌then◌else◌, map, ◌>>=◌,
}
use pti_gpu_itt_only.Text.{Text, contains, text_eq, strip, split, push_head}

-- The place of the first label that the line contains.
unfoldable pub label_in : ℕ → List Text → Text → Option ℕ
label_in index [] line = none
label_in index (label ∷ labels) line =
    let later = label_in (index + 1) labels line in
    if contains line label then some index else later

-- `skip_to`: the label's place, the line and the lines behind it, or `none` for `-1`.
unfoldable pub skip_to : List Text → List Text → Option (ℕ × Text × List Text)
skip_to labels [] = none
skip_to labels (line ∷ lines) = elim (label_in 0 labels line) [
  | some index ↦ some (index, line, lines)
  | none ↦ skip_to labels lines
]

abbrev pub is_blank : Text → Bool
is_blank line = elim (strip line) [ [] ↦ true | c ∷ rest ↦ false ]

-- `skip_empty`: the first line that is not blank, and the lines behind it.
unfoldable pub skip_empty : List Text → Option (Text × List Text)
skip_empty [] = none
skip_empty (line ∷ lines) =
    let rest = skip_empty lines in if is_blank line then rest else some (line, lines)

-- `stop_on_empty`: the lines up to the first blank one, and the lines behind that.
unfoldable pub stop_on_empty : List Text → List Text × List Text
stop_on_empty [] = ([], [])
stop_on_empty (line ∷ lines) =
    let (table, rest) = stop_on_empty lines in
    if is_blank line then ([], lines) else (line ∷ table, rest)

-- Where a reader of a row stands: before a field, in a bare one, in a quoted one, behind a quotation
-- mark in a quoted one.
pub data CsvState : Type 0 where
  start_field : CsvState
  in_field : CsvState
  in_quotes : CsvState
  quote_in_quotes : CsvState

-- A row of `csv.reader`, with `skipinitialspace`: 34 is the quotation mark, 44 the comma.
unfoldable pub csv_row : CsvState → Text → List Text
csv_row state [] = [] ∷ []
csv_row start_field (c ∷ row) =
    let spaces = csv_row start_field row in
    let quoted = csv_row in_quotes row in
    let bare = csv_row in_field row in
    if c == 32
    then spaces
    else if c == 34
    then quoted
    else if c == 44
    then [] ∷ spaces
    else push_head c bare
csv_row in_field (c ∷ row) =
    let next = csv_row start_field row in
    let bare = csv_row in_field row in if c == 44 then [] ∷ next else push_head c bare
csv_row in_quotes (c ∷ row) =
    let behind = csv_row quote_in_quotes row in
    let quoted = csv_row in_quotes row in if c == 34 then behind else push_head c quoted
csv_row quote_in_quotes (c ∷ row) =
    let next = csv_row start_field row in
    let quoted = csv_row in_quotes row in
    let bare = csv_row in_field row in
    if c == 34 then push_head c quoted else if c == 44 then [] ∷ next else push_head c bare

-- `record[label]` of the record of a row: the last of the columns with that name.
unfoldable pub field : List Text → List Text → Text → Option Text
field (name ∷ header) (value ∷ row) label =
    let own = if text_eq name label then some value else none in
    elim (field header row label) [ some later ↦ some later | none ↦ own ]
field _ _ label = none

-- `int( s )` of a numeral without a sign; any other text counts as an error.
unfoldable pub digits : ℕ → Text → Option ℕ
digits n [] = some n
digits n (c ∷ s) =
    let rest = digits (10 * n + (c - b'0')) s in if leb b'0' c && leb c b'9' then rest else none

unfoldable pub int_of : Text → Option ℕ
int_of s = elim (strip s) [ [] ↦ none | c ∷ rest ↦ digits 0 (c ∷ rest) ]

-- `csv_from`: the header, the rows and the lines behind the table, or `none` for the error of a file
-- that ends before the header.
unfoldable pub csv_from : List Text → Option (List Text × List Text × List Text)
csv_from lines = do
  (header, rest) ← skip_empty lines
  let (table, behind) = stop_on_empty rest
  some (map strip (split (strip header) (44 ∷ [])), table, behind)
