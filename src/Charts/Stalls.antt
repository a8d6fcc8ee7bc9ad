-- ===== src/Charts/Stalls.antt =====
-- `AnalyzeStallMetrics`, lines 553 to 824: the charts of the stalled instructions of every kernel, or
-- of one. The composer of a kernel's stall report, `AnalyzeStalls`, is the argument `analyze_stalls`.
pub mod Runs
pub mod Kernel
use mathlib.Core.List.{map}
use pti_gpu_itt_only.Base.{
  ℕ, zero, suc, ◌+◌, Bool, true, false, not, ◌&&◌, ◌||◌, List, [], ◌∷◌, ◌++◌, Option, none, some,
  if◌then◌else◌, length, slice,
}
use pti_gpu_itt_only.Text.{Text, text_eq}
use pti_gpu_itt_only.Report.{write_out}
use pti_gpu_itt_only.Charts.{or_end}
use pti_gpu_itt_only.Charts.Paging.{StallRow, stalled_rows, Chart, charts_of}

-- A page of the PDF file: a chart, or a page of the stall report.
pub data Page : Type 0 where
  chart : Chart → Page
  report_page : Text → Page

pub data Message : Type 0 where
  analyzed : Text → Message
  charted : Message
  no_events : Text → Message
  charts_stored : Message
  report_stored : Message

-- The PDF file, unless it is not opened yet, the report file's texts, and what is printed.
pub record Out : Type 0 where
  pub pdf : Option (List Page)
  pub stored : List Text
  pub messages : List Message

abbrev pub no_out : Out
no_out = record { pdf = none; stored = []; messages = [] }

-- The command's options: `--kernel`, `--shaderdump` with whether it names a folder, and whether
-- `--report` is given.
pub record StallArgs : Type 0 where
  pub kernel : Option Text
  pub dump : Option Bool
  pub report : Bool

abbrev pub pages_of : Option (List Page) → List Page
pages_of none = []
pages_of (some pages) = pages

-- `p = pdf(args.output)` where there is none yet, and the pages saved to it.
unfoldable pub save_pages : List Page → Option (List Page) → Option (List Page)
save_pages pages pdf = some (pages_of pdf ++ pages)

-- The variables of the loop over all kernels.
pub record Loop : Type 0 where
  pub current : Text
  pub start : ℕ
  pub out : Out

abbrev pub first_loop : Loop
first_loop = record { current = []; start = 0; out = no_out }

-- The PDF file, if there is one, and the report file are closed.
unfoldable pub close_files : Bool → Out → Out
close_files stored out =
    let told : List Message = elim out.pdf [ none ↦ [] | some pages ↦ charts_stored ∷ [] ] in
    record out { messages = out.messages ++ (told ++ (if stored then report_stored ∷ [] else [])) }

module _ (analyze_stalls : Text → List StallRow → Text) where
  abbrev pub report_pages : Text → List StallRow → List Page
  report_pages kernel rows = map (λ page. report_page page) (write_out (analyze_stalls kernel rows))

  abbrev pub kernel_charts : Text → List StallRow → List Page
  kernel_charts kernel rows = map (λ c. chart c) (charts_of kernel rows)

  -- The charts of one kernel's rows, of which some instructions stalled, and its report; and the
  -- messages behind them.
  unfoldable pub draw_stalled : Bool → Bool → List Message → Text → List StallRow → Out → Out
  draw_stalled dumped kept done kernel rows out =
      let drawn = save_pages (kernel_charts kernel rows) out.pdf in
      record {
        pdf = if dumped then save_pages (report_pages kernel rows) drawn else drawn;
        stored = out.stored ++ (if dumped && kept then analyze_stalls kernel rows ∷ [] else []);
        messages = out.messages ++ done;
      }

  -- `df2`, its rows without stall events removed, drawn.
  unfoldable pub draw_kernel : Bool → Bool → List Message → Text → List StallRow → Out → Out
  draw_kernel dumped kept done kernel rows out = elim (stalled_rows rows) [
    | [] ↦ record out { messages = out.messages ++ (no_events kernel ∷ []) }
    | row ∷ more ↦ draw_stalled dumped kept done kernel (row ∷ more) out
  ]

  -- One row of `df`, at `index`.
  unfoldable pub each_row : Bool → Bool → List StallRow → ℕ → StallRow → Loop → Loop
  each_row dumped kept df index row s =
      if text_eq s.current []
      then record s { current = row.kernel; start = index }
      else if text_eq s.current row.kernel
      then s
      else record {
        current = row.kernel;
        start = index;
        out =
            draw_kernel dumped kept (analyzed s.current ∷ []) s.current (slice s.start index df)
              s.out;
      }

  unfoldable pub all_rows : Bool → Bool → List StallRow → ℕ → List StallRow → Loop → Loop
  all_rows dumped kept df index [] s = s
  all_rows dumped kept df index (row ∷ rows) s =
      all_rows dumped kept df (index + 1) rows (each_row dumped kept df index row s)

  -- The last kernel, behind the loop.
  unfoldable pub last_kernel : Bool → Bool → List StallRow → Loop → Out
  last_kernel dumped kept df s =
      draw_kernel dumped kept (analyzed s.current ∷ []) s.current (slice s.start (length df) df)
        s.out

  -- All kernels.
  unfoldable pub all_kernels : Bool → Bool → List StallRow → Out
  all_kernels dumped kept df =
      close_files (dumped && kept)
        (last_kernel dumped kept df (all_rows dumped kept df 0 df first_loop))

  -- One kernel, by its rows.
  unfoldable pub one_kernel : Bool → Bool → Bool → Text → List StallRow → Out
  one_kernel http dumped kept kernel rows =
      let stored = dumped && (kept && not http) in
      let out = draw_kernel dumped stored (if http then [] else charted ∷ []) kernel rows no_out in
      record out { messages = out.messages ++ (if stored then report_stored ∷ [] else []) }

-- The loop that looks for the rows of one kernel: `start` and `stop`, if set.
unfoldable pub find_rows : Text → ℕ → List StallRow → Option ℕ → Option ℕ × Option ℕ
find_rows kernel index [] start = (start, none)
find_rows kernel index (row ∷ rows) none =
    find_rows kernel (index + 1) rows (if text_eq row.kernel kernel then some index else none)
find_rows kernel index (row ∷ rows) (some start) =
    let rest = find_rows kernel (index + 1) rows (some start) in
    if text_eq row.kernel kernel then rest else (some start, some index)

abbrev pub is_none : Option Text → Bool
is_none none = true
is_none (some _) = false

-- `df[start : stop]`, if the kernel is found.
unfoldable pub kernel_rows : Text → List StallRow → Option (List StallRow)
kernel_rows kernel df =
    let (begun, stop) = find_rows kernel 0 df none in
    elim begun [ none ↦ none | some start ↦ some (slice start (or_end stop (length df)) df) ]

-- What the analysis comes to: nothing, a message that it cannot be made, or its output.
pub data Analysis : Type 0 where
  nothing : Analysis
  no_folder : Analysis
  no_metrics : Text → Analysis
  made : Out → Analysis

module _ (analyze_stalls : Text → List StallRow → Text) (http : Bool) where
  -- The part behind the test of the folder.
  unfoldable pub analyze_rows : Bool → StallArgs → List StallRow → Analysis
  analyze_rows dumped args df = elim args.kernel [
    | none ↦ made (all_kernels analyze_stalls dumped args.report df)
    | some kernel ↦ elim (kernel_rows kernel df) [
      | none ↦ no_metrics kernel
      | some rows ↦ made (one_kernel analyze_stalls http dumped args.report kernel rows)
    ]
  ]

  -- The analysis; `http` says that it is a request's.
  unfoldable pub analyze_stall_metrics : StallArgs → List StallRow → Analysis
  analyze_stall_metrics args df = if http && is_none args.kernel then nothing else elim args.dump [
    | some false ↦ no_folder
    | some true ↦ analyze_rows true args df
    | none ↦ analyze_rows false args df
  ]
