-- ===== src/Charts/Paging/Laws.antt =====
-- The pages of one kernel's charts, together and each by itself.
use mathlib.Core.List.{map}
use pti_gpu_itt_only.Base.{
  ℕ, zero, suc, ◌+◌, ◌-◌, ◌*◌, ◌/◌, ◌≤◌, min, ◌≡◌, ◌∙◌, refl, sym, ap, arith, List, [], ◌∷◌, ◌++◌,
  if◌then◌else◌, length, take, drop, concat, All, take-append-drop, length-take, length-drop,
  drop-drop, drop_all, take-min, ltb, ltb-cases, append-nil, Bool-cases, inl, inr,
}
use pti_gpu_itt_only.Text.{Text}
use pti_gpu_itt_only.Charts.{line, bar, kind_of}
use pti_gpu_itt_only.Charts.Paging.{
  StallRow, Chart, labels_of, ticks_from, numpages, page_of, chart_pages, charts_of,
}

module _ {ℓ} {A : Type ℓ} where
  page_of-take :
      (page size : ℕ) (xs : List A)
      → size ≡ length xs
      → page_of page size xs ≡ take 100 (drop (100 * page) xs)
  page_of-take page size xs h =
      take-min 100 (min (100 * (page + 1)) size - 100 * page) (drop (100 * page) xs)
        (omega (arith, length-drop (100 * page) xs))

  page_of-append-drop :
      (page size : ℕ) (xs : List A)
      → size ≡ length xs
      → page_of page size xs ++ drop (100 * (page + 1)) xs ≡ drop (100 * page) xs
  page_of-append-drop page size xs h = rw (page_of-take page size xs h) (
      ap (◌++◌ (take 100 (drop (100 * page) xs)))
        (ap (λ n. drop n xs) (omega arith) ∙ sym (drop-drop 100 (100 * page) xs))
      ∙ take-append-drop 100 (drop (100 * page) xs))

length-labels_of : (rows : List StallRow) → length (labels_of rows) ≡ length rows
length-labels_of [] = refl
length-labels_of (row ∷ rows) = omega (arith, length-labels_of rows)

length-ticks_from : (i : ℕ) (rows : List StallRow) → length (ticks_from i rows) ≡ length rows
length-ticks_from i [] = refl
length-ticks_from i (row ∷ rows) = omega (arith, length-ticks_from (i + 1) rows)

-- What the charts hold together.
abbrev pub all_rows : List Chart → List StallRow
all_rows charts = concat (map (λ c. Chart.rows c) charts)

abbrev pub all_labels : List Chart → List Text
all_labels charts = concat (map (λ c. Chart.labels c) charts)

abbrev pub all_ticks : List Chart → List ℕ
all_ticks charts = concat (map (λ c. Chart.ticks c) charts)

record Holds (rows : List StallRow) (ticks : List ℕ) (labels : List Text) (charts : List Chart)
    : Type 0 where
  pub rows_held : all_rows charts ≡ rows
  pub ticks_held : all_ticks charts ≡ ticks
  pub labels_held : all_labels charts ≡ labels

chart_pages-Holds :
    (kernel : Text) (rows : List StallRow) (todo page : ℕ)
    → length rows ≤ 100 * (page + todo)
    → Holds
        (drop (100 * page) rows)
        (drop (100 * page) (ticks_from 0 rows))
        (drop (100 * page) (labels_of rows))
        (chart_pages kernel rows todo page)
unfolding chart_pages
chart_pages-Holds kernel rows zero page h = record {
  rows_held = sym (drop_all (100 * page) rows (omega arith));
  ticks_held =
      sym (drop_all (100 * page) (ticks_from 0 rows) (omega (arith, length-ticks_from 0 rows)));
  labels_held = sym (drop_all (100 * page) (labels_of rows) (omega (arith, length-labels_of rows)));
}
chart_pages-Holds kernel rows (suc todo) page h =
    let rest = chart_pages-Holds kernel rows todo (page + 1) (omega arith) in
    record {
      rows_held =
          ap (◌++◌ (page_of page (length rows) rows)) rest.rows_held
          ∙ page_of-append-drop page (length rows) rows refl;
      ticks_held =
          ap (◌++◌ (page_of page (length rows) (ticks_from 0 rows))) rest.ticks_held
          ∙ page_of-append-drop page (length rows) (ticks_from 0 rows)
              (sym (length-ticks_from 0 rows));
      labels_held =
          ap (◌++◌ (page_of page (length rows) (labels_of rows))) rest.labels_held
          ∙ page_of-append-drop page (length rows) (labels_of rows) (sym (length-labels_of rows));
    }

charts_of-Holds :
    (kernel : Text) (rows : List StallRow)
    → Holds rows (ticks_from 0 rows) (labels_of rows) (charts_of kernel rows)
unfolding charts_of numpages
charts_of-Holds kernel rows = elim (Bool-cases (ltb 1 (numpages rows))) [
  | inl h ↦ rw (h, charts_of) (chart_pages-Holds kernel rows (numpages rows) 0 (omega arith))
  | inr h ↦
      rw (h, charts_of)
        (record {
          rows_held = append-nil rows;
          ticks_held = append-nil (ticks_from 0 rows);
          labels_held = append-nil (labels_of rows);
        })
]

-- A chart that a page has room for, of the kernel, with one tick and one label for each row, drawn
-- as a line if it has two rows at least.
pub record FitsPage (kernel : Text) (chart : Chart) : Type 0 where
  pub not_empty : 1 ≤ length chart.rows
  pub not_full : length chart.rows ≤ 100
  pub ticks_fit : length chart.ticks ≡ length chart.rows
  pub labels_fit : chart.labels ≡ labels_of chart.rows
  pub kind_fits : chart.kind ≡ (if ltb 1 (length chart.rows) then line else bar)
  pub kernel_fits : chart.kernel ≡ kernel

length-page_of {ℓ} :
    {A : Type ℓ} (page : ℕ) (xs : List A)
    → length (page_of page (length xs) xs) ≡ min 100 (length xs - 100 * page)
length-page_of page xs =
    rw (page_of-take page (length xs) xs refl)
      (omega (arith, length-take 100 (drop (100 * page) xs), length-drop (100 * page) xs))

labels_of-take : (n : ℕ) (rows : List StallRow) → labels_of (take n rows) ≡ take n (labels_of rows)
labels_of-take zero rows = refl
labels_of-take (suc n) [] = refl
labels_of-take (suc n) (row ∷ rows) = ap (◌∷◌ row.ip) (labels_of-take n rows)

labels_of-drop : (n : ℕ) (rows : List StallRow) → labels_of (drop n rows) ≡ drop n (labels_of rows)
labels_of-drop zero rows = refl
labels_of-drop (suc n) [] = refl
labels_of-drop (suc n) (row ∷ rows) = labels_of-drop n rows

labels_of-page_of :
    (page size : ℕ) (rows : List StallRow)
    → page_of page size (labels_of rows) ≡ labels_of (page_of page size rows)
labels_of-page_of page size rows =
    ap (take (min (100 * (page + 1)) size - 100 * page)) (sym (labels_of-drop (100 * page) rows))
    ∙ sym (labels_of-take (min (100 * (page + 1)) size - 100 * page) (drop (100 * page) rows))

length-page_ticks :
    (page : ℕ) (rows : List StallRow)
    → length (page_of page (length rows) (ticks_from 0 rows)) ≡ min 100 (length rows - 100 * page)
length-page_ticks page rows =
    rw (page_of-take page (length rows) (ticks_from 0 rows) (sym (length-ticks_from 0 rows))) (
      omega (
        arith,
        length-take 100 (drop (100 * page) (ticks_from 0 rows)),
        length-drop (100 * page) (ticks_from 0 rows),
        length-ticks_from 0 rows,
      ))

chart_pages-FitsPage :
    (kernel : Text) (rows : List StallRow) (todo page : ℕ)
    → page + todo ≡ numpages rows
    → All (FitsPage kernel) (chart_pages kernel rows todo page)
unfolding chart_pages numpages kind_of
chart_pages-FitsPage kernel rows zero page h = tt
chart_pages-FitsPage kernel rows (suc todo) page h =
    let sized = length-page_of page rows in
    (
      record {
        not_empty = omega arith;
        not_full = omega arith;
        ticks_fit = length-page_ticks page rows ∙ sym sized;
        labels_fit = labels_of-page_of page (length rows) rows;
        kind_fits = refl;
        kernel_fits = refl;
      },
      chart_pages-FitsPage kernel rows todo (page + 1) (omega arith),
    )

length-chart_pages :
    (kernel : Text) (rows : List StallRow) (todo page : ℕ)
    → length (chart_pages kernel rows todo page) ≡ todo
unfolding chart_pages
length-chart_pages kernel rows zero page = refl
length-chart_pages kernel rows (suc todo) page =
    omega (arith, length-chart_pages kernel rows todo (page + 1))

-- As many charts as pages, and all of them fit.
charts_of-FitsPage :
    (kernel : Text) (rows : List StallRow)
    → 1 ≤ length rows
    → (length (charts_of kernel rows) ≡ numpages rows)
      × All (FitsPage kernel) (charts_of kernel rows)
unfolding numpages kind_of charts_of
charts_of-FitsPage kernel rows h = elim (ltb-cases 1 (numpages rows)) [
  | inl (many, two) ↦
      rw (many, charts_of)
        (
          length-chart_pages kernel rows (numpages rows) 0,
          chart_pages-FitsPage kernel rows (numpages rows) 0 (omega arith),
        )
  | inr (one, few) ↦
      rw (one, charts_of)
        (
          omega arith,
          (
            record {
              not_empty = h;
              not_full = omega arith;
              ticks_fit = length-ticks_from 0 rows;
              labels_fit = refl;
              kind_fits = refl;
              kernel_fits = refl;
            },
            tt,
          ),
        )
]

-- For at least one row, as many charts are drawn as pages of 100 rows are needed; put one behind
-- the other they show exactly the rows, with all their addresses as labels and their places as
-- ticks; and each chart shows between 1 and 100 rows, as a line from two rows on, with one tick a
-- row, labelled by the addresses of its own rows and named after the kernel.
pub charts_of-pages :
    (kernel : Text) (rows : List StallRow)
    → 1 ≤ length rows
    → (length (charts_of kernel rows) ≡ (length rows + 99) / 100)
      × (all_rows (charts_of kernel rows) ≡ rows)
      × (all_ticks (charts_of kernel rows) ≡ ticks_from 0 rows)
      × (all_labels (charts_of kernel rows) ≡ labels_of rows)
      × All (FitsPage kernel) (charts_of kernel rows)
unfolding numpages
charts_of-pages kernel rows h =
    let held = charts_of-Holds kernel rows in
    let (counted, fit) = charts_of-FitsPage kernel rows h in
    (counted, held.rows_held, held.ticks_held, held.labels_held, fit)
