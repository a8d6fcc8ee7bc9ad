-- ===== src/Stalls/Compose/Tests.antt =====
-- Small assemblies and tables of stalls, their reports, and the theorems at them.
use pti_gpu_itt_only.Base.{map, ◌≡◌, refl, true, false, List, [], ◌∷◌, ◌++◌, Option, none, some}
use pti_gpu_itt_only.Text.{split_on, Text, codes, contains, starts_with, is_space, text_eq}
use pti_gpu_itt_only.Asm.{
  zeros, hex_digit, hex_digits, format_08X, mark, is_instruction, size_of, is_addressed,
  addressed_rows, find_stalled,
}
use pti_gpu_itt_only.Asm.Choice.{words_from, ends_with, names_kernel, asm_files, choose_asm}
use pti_gpu_itt_only.Cfg.{matches_comment, matches_spaces, opens_block, read_blocks, construct_cfg}
use pti_gpu_itt_only.Stalls.Search.{numbered, rows_back}
use pti_gpu_itt_only.Stalls.Report.{
  StallType, pipe, StalledRow, without_zeros, Source, composed, failed, source_text, other_text,
  source_above, has_source,
}
use pti_gpu_itt_only.Stalls.Compose.{
  stars_line, end_line, top_rows, sbid_rows, other_entry, other_rows, each_type, all_types,
  report_head, analyze_stalls,
}
use pti_gpu_itt_only.Stalls.Compose.Composed.{all_types-composed}
use pti_gpu_itt_only.Stalls.Compose.Unbound.{here, this, later, all_types-unbound}

abbrev plain_rows : List Text
plain_rows = codes "//.kernel k" ∷ codes "/* [00000000] */ add //" ∷ []

abbrev pipe_row : StalledRow
pipe_row = record { pc = 0; events = λ t. elim t [ pipe ↦ 3 | _ ↦ 0 ] }

abbrev pipe_stalls : List StalledRow
pipe_stalls = pipe_row ∷ []

abbrev as_they_are : StallType → List StalledRow → List StalledRow
as_they_are t rows = rows

all_types-unbound_example :
    all_types as_they_are (some 5) plain_rows [] false 9 pipe_stalls (codes "head") ≡ failed
unfolding without_zeros top_rows find_stalled is_instruction mark format_08X zeros hex_digits
    hex_digit starts_with contains
all_types-unbound_example =
    all_types-unbound as_they_are (some 5) plain_rows [] pipe_stalls 9 (codes "head") refl refl
      (later (this pipe_row [] refl (here {row = pipe_row} 1 refl)))

-- The same stalls in the whole function.
no_report :
    analyze_stalls as_they_are none
      (λ name. name)
      ((codes "k.asm", map (λ row. row ++ codes "\n") plain_rows) ∷ [])
      9
      (codes "k")
      pipe_stalls
    ≡ failed
unfolding analyze_stalls all_types each_type other_rows other_entry sbid_rows report_head has_source
    without_zeros top_rows find_stalled is_instruction mark format_08X zeros hex_digits hex_digit
    starts_with contains asm_files names_kernel words_from ends_with choose_asm text_eq
    addressed_rows is_addressed size_of construct_cfg read_blocks opens_block matches_comment
    matches_spaces is_space split_on
no_report = refl

-- With a source line in front there is a report.
abbrev source_rows : List Text
source_rows = codes "//.kernel k" ∷ codes "// Line 7" ∷ codes "/* [00000000] */ add //" ∷ []

with_source :
    analyze_stalls as_they_are none
      (λ name. name)
      ((codes "k.asm", map (λ row. row ++ codes "\n") source_rows) ∷ [])
      9
      (codes "k")
      pipe_stalls
    ≡ composed
        (codes
            "Kernel: k\nAssembly with instruction addresses: k.asm\n\nReport of Stalls of Each Type\n"
          ++ (stars_line
              ++ (codes "Sbid Stalls: \n"
                  ++ (stars_line
                      ++ (codes
                            "Pipe Stalls: \n\nInstruction\n  /* [00000000] */ add //\n  Line 7\nis stalled\n"
                          ++ end_line)))))
        (some (some 1, none))
unfolding analyze_stalls all_types each_type other_rows other_entry other_text source_text
    source_above rows_back numbered sbid_rows report_head has_source without_zeros top_rows
    find_stalled is_instruction mark format_08X zeros hex_digits hex_digit starts_with contains
    asm_files names_kernel words_from ends_with choose_asm text_eq addressed_rows is_addressed
    size_of construct_cfg read_blocks opens_block matches_comment matches_spaces is_space split_on
with_source = refl

all_types-composed_example :
    (report : Text) × (source : Option Source) × (all_types as_they_are
        (some 5)
        source_rows
        []
        true
        9
        pipe_stalls
        (codes "head")
      ≡ composed report source)
unfolding sbid_rows top_rows without_zeros
all_types-composed_example =
    all_types-composed as_they_are (some 5) source_rows [] 9 pipe_stalls (codes "head")
      (codes "head" ++ (stars_line ++ codes "Sbid Stalls: \n")) none refl
