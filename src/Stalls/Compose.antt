-- ===== src/Stalls/Compose.antt =====
-- The loops of `AnalyzeStalls`, in `tools/unitrace/scripts/metrics/analyzeperfmetrics.py`, that put the
-- report together, and the function as a whole.
pub mod Above
pub mod Unbound
pub mod Composed
mod Tests
use pti_gpu_itt_only.Base.{
  ℕ, zero, suc, ◌+◌, Bool, true, false, List, [], ◌∷◌, ◌++◌, Option, none, some, if◌then◌else◌,
  length, get_elem?, map,
}
use pti_gpu_itt_only.Text.{Text, codes, text_eq, split}
use pti_gpu_itt_only.Asm.{find_stalled, is_addressed, addressed_rows}
use pti_gpu_itt_only.Asm.Choice.{DumpFile, asm_files, choose_asm}
use pti_gpu_itt_only.Cfg.{Blocks, construct_cfg}
use pti_gpu_itt_only.Stalls.Search.{rows_back, search_stall, Outcome, finished, raised, out_of_fuel}
use pti_gpu_itt_only.Stalls.Report.{
  StallType, sbid, control, pipe, send, dist, sync, instr_fetch, other, StalledRow, without_zeros,
  Source, digits_of, Composing, composed, failed, endless, source_text, sbid_text, other_text,
  source_above, has_source, limited, with_entry,
}

abbrev pub stars_line : Text
stars_line =
    codes
      "***********************************************************************************************\n"

abbrev pub end_line : Text
end_line =
    codes
      "===============================================================================================\n"

-- `t.split("Stall")[0]`
abbrev pub type_name : StallType → Text
type_name sbid = codes "Sbid"
type_name control = codes "Control"
type_name pipe = codes "Pipe"
type_name send = codes "Send"
type_name dist = codes "Dist"
type_name sync = codes "Sync"
type_name instr_fetch = codes "InstrFetch"
type_name other = codes "Other"

abbrev pub other_types : List StallType
other_types = control ∷ pipe ∷ send ∷ dist ∷ sync ∷ instr_fetch ∷ other ∷ []

module _ (sort_values : StallType → List StalledRow → List StalledRow)
    (numtopstalls : Option ℕ) where
  -- The rows of a type that are reported: those with events, by their number, up to the limit.
  unfoldable pub top_rows : StallType → List StalledRow → List StalledRow
  top_rows t df = limited numtopstalls (sort_values t (without_zeros t df))

  module _ (instructions : List Text) (bbs : Blocks) (source_available : Bool) where
    -- The entry of a row whose instruction is found.
    unfoldable pub sbid_entry : ℕ → Text → ℕ → Text → Composing
    sbid_entry fuel report addr ins =
        elim (search_stall instructions bbs source_available fuel addr ins) [
          | finished s ↦ with_entry report (s.line, s.file) (sbid_text instructions ins s)
          | raised ↦ failed
          | out_of_fuel ↦ endless
        ]

    -- The loop over the rows with stalls of scoreboard tokens.
    unfoldable pub sbid_rows : ℕ → List StalledRow → Text → Option Source → Composing
    sbid_rows fuel [] report source = composed report source
    sbid_rows fuel (row ∷ rows) report source = elim (find_stalled row.pc instructions) [
      | none ↦ sbid_rows fuel rows report source
      | some addr ↦ elim (get_elem? instructions addr) [
        | none ↦ failed
        | some ins ↦ elim (sbid_entry fuel report addr ins) [
          | composed report' source' ↦ sbid_rows fuel rows report' source'
          | failed ↦ failed
          | endless ↦ endless
        ]
      ]
    ]

    -- The entry of another row: without source lines in the assembly the two variables are those of the
    -- entry before, and an exception where none was.
    unfoldable pub other_entry : Text → Option Source → ℕ → Text → Composing
    other_entry report source addr ins = elim source_available [
      | true ↦
          let found_source = source_above (rows_back instructions 0 addr) (none, none) in
          with_entry report found_source (other_text instructions ins found_source)
      | false ↦ elim source [
        | none ↦ failed
        | some bound ↦ with_entry report bound (other_text instructions ins bound)
      ]
    ]

    -- The loop over the rows with stalls of another type.
    unfoldable pub other_rows : List StalledRow → Text → Option Source → Composing
    other_rows [] report source = composed report source
    other_rows (row ∷ rows) report source = elim (find_stalled row.pc instructions) [
      | none ↦ other_rows rows report source
      | some addr ↦ elim (get_elem? instructions addr) [
        | none ↦ failed
        | some ins ↦ elim (other_entry report source addr ins) [
          | composed report' source' ↦ other_rows rows report' source'
          | failed ↦ failed
          | endless ↦ endless
        ]
      ]
    ]

    -- The loop over the other types; one without events is passed over.
    unfoldable pub each_type : List StallType → List StalledRow → Text → Option Source → Composing
    each_type [] df report source = composed (report ++ end_line) source
    each_type (t ∷ types) df report source = elim (without_zeros t df) [
      | [] ↦ each_type types df report source
      | first ∷ others ↦
          elim (other_rows (top_rows t df)
            (report ++ (stars_line ++ (type_name t ++ codes " Stalls: \n"))) source) [
              | composed report' source' ↦ each_type types df report' source'
              | failed ↦ failed
              | endless ↦ endless
            ]
    ]

    -- The report of all types, behind its first lines.
    unfoldable pub all_types : ℕ → List StalledRow → Text → Composing
    all_types fuel df report =
        elim (sbid_rows fuel (top_rows sbid df) (report ++ (stars_line ++ codes "Sbid Stalls: \n"))
          none) [
            | composed report' source ↦ each_type other_types df report' source
            | failed ↦ failed
            | endless ↦ endless
          ]

  -- The first lines of the report.
  unfoldable pub report_head : Text → Text → Text
  report_head kernel asm =
      let limit_line = elim numtopstalls as (λ _. Text) [
        | some n ↦
            codes "\nReport of Top " ++ (digits_of (n + 1) n ++ codes " Stalls of Each Type\n")
        | none ↦ codes "\nReport of Stalls of Each Type\n"
      ] in
      codes "Kernel: "
      ++ (kernel
          ++ (codes "\nAssembly with instruction addresses: "
              ++ (asm ++ (codes "\n" ++ limit_line))))

  -- The rows of a dumped file.
  abbrev rows_of : Text → List DumpFile → List Text
  rows_of path [] = []
  rows_of path ((other_path, rows) ∷ files) =
      if text_eq other_path path then rows else rows_of path files

  -- A row without its line break.
  abbrev without_end : Text → Text
  without_end row = elim (split row (codes "\n")) [ [] ↦ [] | ins ∷ others ↦ ins ]

  -- `AnalyzeStalls`, of the files in the shader dump, whose rows end with line breaks. The demangler is
  -- a function here; how its failures last from name to name is in Asm.Demangler.
  unfoldable pub analyze_stalls :
      (Text → Text) → List DumpFile → ℕ → Text → List StalledRow → Composing
  analyze_stalls demangle files fuel kernel df = elim (asm_files demangle kernel files) [
    | none ↦ failed
    | some asmfiles ↦ elim (choose_asm asmfiles) [
      | none ↦ composed (codes "Not found .asm file for " ++ kernel) none
      | some asm ↦
          let rows = rows_of asm files in
          let instructions = map without_end (addressed_rows rows) in
          let asm' = if is_addressed 0 rows then asm else asm ++ codes ".ip" in
          elim (construct_cfg instructions) [
            | none ↦ failed
            | some bbs ↦
                all_types instructions bbs (has_source instructions) fuel df
                  (report_head kernel asm')
          ]
    ]
  ]
