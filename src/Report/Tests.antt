-- ===== src/Report/Tests.antt =====
-- Pages of small reports, and the theorems at them.
use pti_gpu_itt_only.Base.{[], ◌∷◌, ◌≡◌, refl, concat, All, map, List, length}
use pti_gpu_itt_only.Text.{Text, codes, split, split_on}
use pti_gpu_itt_only.Report.{write_out, escape, put_line, blank}
use pti_gpu_itt_only.Report.Pages.{rows_of, render, IsPaged, Fits, put_rows, put_line-rows}
use pti_gpu_itt_only.Report.Pages.Groups.{page_groups, write_out-page_groups}

abbrev report : Text
report = codes "Kernel: f\n\ncost $3"

-- The blank line is printed as two line breaks and counts as one row.
write_report : write_out report ≡ codes "Kernel: f\n\n\ncost \\$3\n" ∷ []
unfolding write_out escape split_on
write_report = refl

write_out-page_groups_example :
    (write_out report ≡ map (λ g. escape (render g)) (page_groups report))
    × (concat (page_groups report) ≡ rows_of (split report (codes "\n")))
    × IsPaged (page_groups report)
write_out-page_groups_example = write_out-page_groups report

put_line-rows_example :
    (rows : List Text) × (put_line (length report) report blank ≡ put_rows rows blank)
    × (concat rows ≡ report)
    × All Fits rows
put_line-rows_example = put_line-rows report blank
