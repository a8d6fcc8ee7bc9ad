-- ===== src/Report/Pages/Groups.antt =====
-- The pages as groups of rows.
use pti_gpu_itt_only.Base.{
  ℕ, suc, ◌+◌, ◌<◌, true, false, List, [], ◌∷◌, ◌++◌, ◌≡◌, ◌∙◌, refl, sym, ap, arith, length,
  concat, map, ◌==◌, append_assoc, append-nil, length-append, Bool-cases, inl, inr,
}
use pti_gpu_itt_only.Text.{Text, codes, split}
use pti_gpu_itt_only.Report.{page_size, escape, Printer, put_row, last_page, blank, write_out}
use pti_gpu_itt_only.Report.Pages.{put_rows, put_lines-rows_of, rows_of, render, IsPaged}

abbrev page_text : List Text → Text
page_text g = escape (render g)

-- The printer that has saved these pages and holds `cur` on the open one.
abbrev holding : List Text → List Text → Printer
holding cur saved = record { page = render cur; num = length cur; saved = saved }

-- The groups that the rows make behind an open page.
unfoldable pub paginate : List Text → List Text → List (List Text)
paginate [] [] = []
paginate (r ∷ cur) [] = (r ∷ cur) ∷ []
paginate cur (row ∷ rows) = elim (length cur + 1 == page_size) [
  | true ↦ (cur ++ (row ∷ [])) ∷ paginate [] rows
  | false ↦ paginate (cur ++ (row ∷ [])) rows
]

render-append : (xs ys : List Text) → render (xs ++ ys) ≡ render xs ++ render ys
render-append [] ys = refl
render-append (x ∷ xs) ys =
    ap (λ t. x ++ (b'\n' ∷ t)) (render-append xs ys)
    ∙ sym (append_assoc x (b'\n' ∷ render xs) (render ys))

put_row-holding_full :
    (row : Text) (cur saved : List Text)
    → (length cur + 1 == page_size) ≡ true
    → put_row row (holding cur saved) ≡ holding [] (saved ++ (page_text (cur ++ (row ∷ [])) ∷ []))
unfolding put_row
put_row-holding_full row cur saved h = rw (render-append cur (row ∷ [])) (rw h)

put_row-holding :
    (row : Text) (cur saved : List Text)
    → (length cur + 1 == page_size) ≡ false
    → put_row row (holding cur saved) ≡ holding (cur ++ (row ∷ [])) saved
unfolding put_row
put_row-holding row cur saved h =
    rw h (rw (render-append cur (row ∷ []), length-append cur (row ∷ [])))

suc-ne-zero : (n : ℕ) → (suc n == 0) ≡ false
suc-ne-zero n = ground arith

last_page-paginate :
    (rows cur saved : List Text)
    → last_page (put_rows rows (holding cur saved)) ≡ saved ++ map page_text (paginate cur rows)
unfolding paginate
last_page-paginate [] [] saved = unfold last_page in sym (append-nil saved)
last_page-paginate [] (r ∷ cur) saved = unfold last_page in rw (suc-ne-zero (length cur)) refl
last_page-paginate (row ∷ rows) cur saved = elim (Bool-cases (length cur + 1 == page_size)) [
  | inl h ↦
      rw (h, put_row-holding_full row cur saved h, paginate)
        (last_page-paginate rows [] _ ∙ append_assoc saved (_ ∷ []) _)
  | inr h ↦
      rw (h, put_row-holding row cur saved h, paginate)
        (last_page-paginate rows (cur ++ (row ∷ [])) saved)
]

concat-paginate : (rows cur : List Text) → concat (paginate cur rows) ≡ cur ++ rows
unfolding paginate
concat-paginate [] [] = refl
concat-paginate [] (r ∷ cur) = refl
concat-paginate (row ∷ rows) cur = elim (Bool-cases (length cur + 1 == page_size)) [
  | inl h ↦ rw (h, paginate) (rw (concat-paginate rows []) (append_assoc cur (row ∷ []) rows))
  | inr h ↦
      rw (h, paginate) (concat-paginate rows (cur ++ (row ∷ [])) ∙ append_assoc cur (row ∷ []) rows)
]

IsPaged-cons :
    (g : List Text) (gs : List (List Text)) → length g ≡ page_size → IsPaged gs → IsPaged (g ∷ gs)
IsPaged-cons g [] h p = (omega arith, omega arith)
IsPaged-cons g (g' ∷ gs) h p = (h, p)

full-length :
    (cur : List Text) (row : Text)
    → (length cur + 1 == page_size) ≡ true
    → length (cur ++ (row ∷ [])) ≡ page_size
full-length cur row h = ground (arith, length-append cur (row ∷ []))

more-length :
    (cur : List Text) (row : Text)
    → length cur < page_size
    → (length cur + 1 == page_size) ≡ false
    → length (cur ++ (row ∷ [])) < page_size
more-length cur row lt h = ground (arith, length-append cur (row ∷ []))

paginate-IsPaged : (rows cur : List Text) → length cur < page_size → IsPaged (paginate cur rows)
unfolding paginate
paginate-IsPaged [] [] lt = tt
paginate-IsPaged [] (r ∷ cur) lt = (omega arith, omega arith)
paginate-IsPaged (row ∷ rows) cur lt = elim (Bool-cases (length cur + 1 == page_size)) [
  | inl h ↦
      rw (h, paginate)
        (IsPaged-cons _ _ (full-length cur row h) (paginate-IsPaged rows [] (omega arith)))
  | inr h ↦ rw (h, paginate) (paginate-IsPaged rows (cur ++ (row ∷ [])) (more-length cur row lt h))
]

-- The groups of rows on the pages of a report.
abbrev pub page_groups : Text → List (List Text)
page_groups report = paginate [] (rows_of (split report (codes "\n")))

-- The pages written for a report are the texts of groups of rows, with the dollar signs escaped:
-- together the groups hold the wrapped rows of the report's lines, all of them and in order; every
-- page but the last has 48 rows and the last has 1 to 48.
pub write_out-page_groups :
    (report : Text)
    → (write_out report ≡ map (λ g. escape (render g)) (page_groups report))
      × (concat (page_groups report) ≡ rows_of (split report (codes "\n")))
      × IsPaged (page_groups report)
write_out-page_groups report =
    let lines = split report (codes "\n") in
    (
      unfold write_out in
          (ap last_page (put_lines-rows_of lines blank) ∙ last_page-paginate (rows_of lines) [] []),
      concat-paginate (rows_of lines) [],
      paginate-IsPaged (rows_of lines) [] (omega arith),
    )
