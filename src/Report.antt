-- ===== src/Report.antt =====
-- `WriteOutStallReport` of `tools/unitrace/scripts/metrics/analyzeperfmetrics.py`: the stall report
-- is wrapped to 160 characters a row and cut into PDF pages of 48 rows. A page is the text handed
-- to `plt.text`; drawing it is the plotting library's work.
pub mod Pages
mod Tests
use pti_gpu_itt_only.Base.{
  ℕ, zero, suc, ◌+◌, Bool, true, false, List, [], ◌∷◌, ◌++◌, if◌then◌else◌, length, take, drop, ltb,
  ◌==◌,
}
use pti_gpu_itt_only.Text.{Text, codes, split}

abbrev pub page_size : ℕ
page_size = 48

abbrev pub line_width : ℕ
line_width = 160

-- `page.replace('$', r'\$')`
unfoldable pub escape : Text → Text
escape [] = []
escape (c ∷ s) = if c == b'$' then b'\\' ∷ b'$' ∷ escape s else c ∷ escape s

-- The variables `page` and `num`, and the pages saved so far.
pub record Printer : Type 0 where
  pub page : Text
  pub num : ℕ
  pub saved : List Text

abbrev pub save : Printer → Printer
save s = record { page = []; num = 0; saved = s.saved ++ (escape s.page ∷ []) }

-- `page += row; page += '\n'; num += 1`, and the page is saved when it is full.
unfoldable pub put_row : Text → Printer → Printer
put_row row s =
    let page = s.page ++ (row ++ b'\n' ∷ []) in
    let t = record s { page = page; num = s.num + 1 } in
    if s.num + 1 == page_size then save t else t

-- The `while` loop over `line[s:]`, and the test behind it. Each round drops `line_width`
-- characters, so the length of the line is fuel enough.
unfoldable pub put_line : ℕ → Text → Printer → Printer
unfolding put_row
put_line zero line s = s
put_line (suc fuel) line s = elim (ltb line_width (length line)) [
  | true ↦ put_line fuel (drop line_width line) (put_row (take line_width line) s)
  | false ↦ if ltb 0 (length line) then put_row line s else s
]

abbrev pub non_empty : Text → Text
non_empty [] = b'\n' ∷ []
non_empty (c ∷ line) = c ∷ line

unfoldable pub put_lines : List Text → Printer → Printer
unfolding put_line
put_lines [] s = s
put_lines (line ∷ lines) s = put_lines lines (put_line (length (non_empty line)) (non_empty line) s)

-- "don't forget the last page"
unfoldable pub last_page : Printer → List Text
last_page s = if s.num == 0 then s.saved else (save s).saved

abbrev pub blank : Printer
blank = record { page = []; num = 0; saved = [] }

-- The pages written for a report.
unfoldable pub write_out : Text → List Text
unfolding put_lines last_page
write_out report = last_page (put_lines (split report (codes "\n")) blank)
