-- ===== src/Charts/Paging.antt =====
-- The charts of one kernel's stalled instructions: one, or pages of 100 instructions each.
pub mod Laws
use mathlib.Core.List.{map}
use pti_gpu_itt_only.Base.{
  ℕ, zero, suc, ◌+◌, ◌-◌, ◌*◌, ◌/◌, min, Bool, true, false, not, ◌&&◌, ◌||◌, List, [], ◌∷◌, ◌++◌,
  Option, none, some, if◌then◌else◌, length, slice, ltb, ◌==◌,
}
use pti_gpu_itt_only.Text.{Text}
use pti_gpu_itt_only.Charts.{Kind, kind_of}

-- A row of the stall metrics: an instruction's address and how often it stalled for each reason.
pub record StallRow : Type 0 where
  pub kernel : Text
  pub ip : Text
  pub control : ℕ
  pub pipe : ℕ
  pub send : ℕ
  pub dist : ℕ
  pub sbid : ℕ
  pub sync : ℕ
  pub instr_fetch : ℕ
  pub other : ℕ

-- The test that the rows `df2.loc` keeps pass.
unfoldable pub has_stalls : StallRow → Bool
has_stalls row =
    not (row.control == 0)
    || (not (row.pipe == 0)
        || (not (row.send == 0)
            || (not (row.dist == 0)
                || (not (row.sbid == 0)
                    || (not (row.sync == 0)
                        || (not (row.instr_fetch == 0) || not (row.other == 0)))))))

unfoldable pub stalled_rows : List StallRow → List StallRow
stalled_rows [] = []
stalled_rows (row ∷ rows) =
    let rest = stalled_rows rows in if has_stalls row then row ∷ rest else rest

-- A chart: its rows, the ticks with their labels, and what its title names, the kernel and, of
-- several pages, the number of this one and of all.
pub record Chart : Type 0 where
  pub kind : Kind
  pub rows : List StallRow
  pub ticks : List ℕ
  pub labels : List Text
  pub kernel : Text
  pub number : Option (ℕ × ℕ)

-- `xlabels`
abbrev pub labels_of : List StallRow → List Text
labels_of rows = map (λ row. StallRow.ip row) rows

-- `xticks`
abbrev pub ticks_from : ℕ → List StallRow → List ℕ
ticks_from i [] = []
ticks_from i (row ∷ rows) = i ∷ ticks_from (i + 1) rows

abbrev pub ins_per_page : ℕ
ins_per_page = 100

unfoldable pub numpages : List StallRow → ℕ
numpages rows = (length rows + (ins_per_page - 1)) / ins_per_page

-- The slice of page `page + 1` of what belongs to the rows.
abbrev pub page_of {ℓ} : {A : Type ℓ} → ℕ → ℕ → List A → List A
page_of page size xs = slice (ins_per_page * page) (min (ins_per_page * (page + 1)) size) xs

-- The loop over the pages: `todo` pages are left, from page `page + 1` on.
unfoldable pub chart_pages : Text → List StallRow → ℕ → ℕ → List Chart
chart_pages kernel rows zero page = []
chart_pages kernel rows (suc todo) page =
    record {
      kind = kind_of (page_of page (length rows) rows);
      rows = page_of page (length rows) rows;
      ticks = page_of page (length rows) (ticks_from 0 rows);
      labels = page_of page (length rows) (labels_of rows);
      kernel = kernel;
      number = some (page + 1, numpages rows);
    }
    ∷ chart_pages kernel rows todo (page + 1)

unfoldable pub charts_of : Text → List StallRow → List Chart
charts_of kernel rows =
    if ltb 1 (numpages rows)
    then chart_pages kernel rows (numpages rows) 0
    else record {
      kind = kind_of rows;
      rows = rows;
      ticks = ticks_from 0 rows;
      labels = labels_of rows;
      kernel = kernel;
      number = none;
    }
      ∷ []
