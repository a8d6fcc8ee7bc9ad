-- ===== src/Sections/Server.antt =====
-- The scan of `PerfMetricsHTTPServer`, which cuts the whole metric file into sections before the
-- server starts.
pub mod Alternate
use pti_gpu_itt_only.Base.{
  ℕ, ◌+◌, Bool, true, false, List, [], ◌∷◌, ◌++◌, ◌≡◌, arith, if◌then◌else◌, length, All,
}
use pti_gpu_itt_only.Text.{Text}
use pti_gpu_itt_only.Sections.{is_banner, is_header, is_stall_header}

-- An item of `sections`: the number of the header's line, and that of the line behind the last.
abbrev pub Span : Type 0
Span = ℕ × ℕ

pub record ServerScan : Type 0 where
  pub header : ℕ
  pub linenum : ℕ
  pub devicefound : Bool
  pub eustall : Bool
  pub sections : List Span

unfoldable pub note_header : Text → ServerScan → ServerScan
note_header row s =
    if is_header row
    then record s { header = s.linenum; eustall = if is_stall_header row then true else s.eustall }
    else s

unfoldable pub note_banner : Text → ServerScan → ServerScan
note_banner row s =
    if is_banner row
    then (if s.devicefound
        then record s { sections = s.sections ++ ((s.header, s.linenum) ∷ []); devicefound = false }
        else record s { devicefound = true })
    else s

abbrev pub next_line : ServerScan → ServerScan
next_line s = record s { linenum = s.linenum + 1 }

unfoldable pub server_rows : List Text → ServerScan → ServerScan
unfolding note_header note_banner
server_rows [] s = s
server_rows (row ∷ rows) s = server_rows rows (next_line (note_banner row (note_header row s)))

abbrev pub server_start : ServerScan
server_start = record {
  header = 0;
  linenum = 0;
  devicefound = false;
  eustall = false;
  sections = [];
}

-- The variable `sections` when the server starts.
unfoldable pub server_sections : List Text → List Span
unfolding server_rows
server_sections rows =
    let s = server_rows rows server_start in s.sections ++ ((s.header, s.linenum) ∷ [])

-- A device's part of a metric file: its banner, the lines up to the header, the header, its data.
pub record Section : Type 0 where
  pub banner : Text
  pub gap : List Text
  pub header : Text
  pub body : List Text

abbrev pub IsQuiet : Text → Type 0
IsQuiet row = (is_banner row ≡ false) × (is_header row ≡ false)

pub record IsSection (sec : Section) : Type 0 where
  pub banner_row : is_banner sec.banner ≡ true
  pub banner_only : is_header sec.banner ≡ false
  pub gap_rows : All IsQuiet sec.gap
  pub header_row : is_header sec.header ≡ true
  pub header_only : is_banner sec.header ≡ false
  pub body_rows : All IsQuiet sec.body

abbrev pub section_rows : Section → List Text
section_rows sec = sec.banner ∷ (sec.gap ++ (sec.header ∷ sec.body))

abbrev pub file_rows : List Section → List Text
file_rows [] = []
file_rows (sec ∷ secs) = section_rows sec ++ file_rows secs

abbrev pub header_line : ℕ → Section → ℕ
header_line n sec = n + 1 + length sec.gap

abbrev pub end_line : ℕ → Section → ℕ
end_line n sec = header_line n sec + 1 + length sec.body

-- Where each device's section lies, the file starting at line `n`.
abbrev pub spans : ℕ → List Section → List Span
spans n [] = []
spans n (sec ∷ secs) = (header_line n sec, end_line n sec) ∷ spans (end_line n sec) secs

-- Every other span, from the first on, and the last.
abbrev pub alternate : List Span → List Span
alternate [] = []
alternate (a ∷ []) = a ∷ []
alternate (a ∷ b ∷ []) = a ∷ b ∷ []
alternate (a ∷ b ∷ c ∷ rest) = a ∷ alternate (c ∷ rest)

pub server-quiet :
    (rows rest : List Text) (s : ServerScan)
    → All IsQuiet rows
    → server_rows (rows ++ rest) s
      ≡ server_rows rest (record s { linenum = s.linenum + length rows })
unfolding server_rows
server-quiet [] rest s h = ground arith
server-quiet (row ∷ rows) rest s (h, hs) = ground (arith, server-quiet rows rest (next_line s) hs)

pub server_banner :
    (row : Text) (rest : List Text) (s : ServerScan)
    → is_banner row ≡ true
    → is_header row ≡ false
    → server_rows (row ∷ rest) s ≡ server_rows rest (next_line (note_banner row s))
unfolding server_rows
server_banner row rest s b h = ground arith

pub server_header :
    (row : Text) (rest : List Text) (s : ServerScan)
    → is_banner row ≡ false
    → is_header row ≡ true
    → server_rows (row ∷ rest) s ≡ server_rows rest (next_line (note_header row s))
unfolding server_rows
server_header row rest s b h = ground arith
