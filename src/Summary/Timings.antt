-- ===== src/Summary/Timings.antt =====
-- `aprocess` of `tools/unitrace/scripts/summary/summary.py`: the timings in the sections of the
-- summary files. A row too short for its column of names counts as an error.
pub mod Loops
pub mod Records
pub mod Tables
mod Tests
use pti_gpu_itt_only.Base.{
  ℕ, zero, suc, ◌+◌, Bool, true, false, List, [], ◌∷◌, ◌++◌, Option, none, some, if◌then◌else◌,
  length, get_elem?, ◌>>=◌,
}
use pti_gpu_itt_only.Text.{Text, codes, text_eq, split}
use pti_gpu_itt_only.Summary.Csv.{skip_to, csv_from, csv_row, start_field, field, int_of}

-- A time and a number of calls.
abbrev pub Timing : Type 0
Timing = ℕ × ℕ

-- A `defaultdict(list)`, in the order of insertion.
abbrev pub Metrics : Type 0
Metrics = List (Text × List Timing)

-- `table[name]`: the look-up of a missing name makes its entry, with no timings.
unfoldable pub touch_entry : Text → Metrics → Metrics
touch_entry name [] = (name, []) ∷ []
touch_entry name ((other, timings) ∷ table) =
    let rest = touch_entry name table in
    if text_eq other name then (other, timings) ∷ table else (other, timings) ∷ rest

-- `append( timing )` at the entry of a name.
unfoldable pub push_timing : Text → Timing → Metrics → Metrics
push_timing name timing [] = []
push_timing name timing ((other, timings) ∷ table) =
    let rest = push_timing name timing table in
    if text_eq other name then (other, timings ++ timing ∷ []) ∷ table else (other, timings) ∷ rest

-- `metrics`: of the host, of the device and of communication.
pub record AllMetrics : Type 0 where
  pub host : Metrics
  pub device : Metrics
  pub comm : Metrics

-- The section that is read: `none` for `-1`.
pub data Reading : Type 0 where
  no_section : Reading
  host_section : Reading
  device_section : Reading
  comm_section : Reading

-- `metrics[section]` changed: for `-1` it is the last of the three.
unfoldable pub update_section : Reading → (Metrics → Metrics) → AllMetrics → AllMetrics
update_section host_section f m = record { host = f m.host; device = m.device; comm = m.comm }
update_section device_section f m = record { host = m.host; device = f m.device; comm = m.comm }
update_section comm_section f m = record { host = m.host; device = m.device; comm = f m.comm }
update_section no_section f m = record { host = m.host; device = m.device; comm = f m.comm }

-- `tuple( int( record[label] ) for label in metric_labels )`
unfoldable pub record_timing : List Text → Text → Option Timing
record_timing header row = do
  time_field ← field header (csv_row start_field row) (codes "Time (ns)")
  time ← int_of time_field
  calls_field ← field header (csv_row start_field row) (codes "Calls")
  calls ← int_of calls_field
  some (time, calls)

-- `table[name].append( timing )`: the entry is looked up in front of the timing, which may be an error. An
-- error ends the run, and the table is lost.
unfoldable pub append_timing : Text → Option Timing → Metrics → Option Metrics
append_timing name timing table =
    let touched = touch_entry name table in
    elim timing [ none ↦ none | some t ↦ some (push_timing name t touched) ]

-- The loop over the records of a table.
unfoldable pub append_records : Text → List Text → List Text → Metrics → Option Metrics
append_records column header [] table = some table
append_records column header (row ∷ rows) table = do
  name ← field header (csv_row start_field row) column
  appended ← append_timing name (record_timing header row) table
  append_records column header rows appended

abbrev pub last_part : List Text → Text
last_part [] = []
last_part (part ∷ []) = part
last_part (part ∷ next ∷ parts) = last_part (next ∷ parts)

-- `int( metric )` of `line.rpartition( ':' )`
unfoldable pub total_of : Text → Option ℕ
total_of line = int_of (last_part (split line (codes ":")))

abbrev pub labels : List Text
labels =
    codes "API Timing Summary"
    ∷ codes "Device Timing Summary"
    ∷ codes "****************************"
    ∷ codes "Total Execution Time"
    ∷ codes "Total API Time for L0 backend"
    ∷ codes "Total Device Time for L0 backend"
    ∷ codes "L0 Backend"
    ∷ []

-- The table of a section, read from the lines.
abbrev pub section_table : Reading → AllMetrics → Metrics
section_table host_section m = m.host
section_table device_section m = m.device
section_table comm_section m = m.comm
section_table no_section m = m.comm

unfoldable pub read_table :
    Text → Reading → AllMetrics → List Text → Option (AllMetrics × List Text)
read_table column section m lines = do
  (header, rows, behind) ← csv_from lines
  table ← append_records column header rows (section_table section m)
  some (update_section section (λ _. table) m, behind)

-- Where the reading of a file stands.
pub record FileState : Type 0 where
  pub section : Reading
  pub metrics : AllMetrics
  pub lines : List Text

abbrev pub total_to : Text → FileState → Text → List Text → Option FileState
total_to name s line rest = do
  table ←
      append_timing name (total_of line >>= λ total. some (total, 1))
        (section_table s.section s.metrics)
  some (record {
    section = s.section;
    metrics = update_section s.section (λ _. table) s.metrics;
    lines = rest;
  })

-- The table of a section, and the section that is next.
abbrev pub table_to : Text → Reading → Reading → AllMetrics → List Text → Option FileState
table_to column section next m rest = do
  (m', behind) ← read_table column section m rest
  some (record { section = next; metrics = m'; lines = behind })

-- The labels, by what the `match` does for them.
pub data Label : Type 0 where
  api_summary : Label
  device_summary : Label
  stars : Label
  execution_time : Label
  api_time : Label
  device_time : Label
  l0_backend : Label

abbrev pub label_at : ℕ → Option Label
label_at index =
    get_elem?
      (api_summary ∷ device_summary ∷ stars ∷ execution_time ∷ api_time ∷ device_time ∷ l0_backend
        ∷ [])
      index

-- A step to another section, with nothing read.
abbrev pub turn_to : Reading → FileState → List Text → Option FileState
turn_to next s rest = some (record { section = next; metrics = s.metrics; lines = rest })

-- The `match` on the label that was found; `none` is an error.
unfoldable pub action : Label → FileState → Text → List Text → Option FileState
action api_summary s line rest = turn_to host_section s rest
action device_summary s line rest = turn_to device_section s rest
action stars s line rest = elim s.section [
  | comm_section ↦ table_to (codes "Function") comm_section no_section s.metrics rest
  | _ ↦ turn_to comm_section s rest
]
action execution_time s line rest = total_to (codes "Wallclock") s line rest
action api_time s line rest = total_to (codes "L0_backend") s line rest
action device_time s line rest = total_to (codes "L0_backend") s line rest
action l0_backend s line rest = elim s.section [
  | host_section ↦ table_to (codes "Function") host_section host_section s.metrics rest
  | device_section ↦ table_to (codes "Kernel") device_section device_section s.metrics rest
  | comm_section ↦ turn_to comm_section s rest
  | no_section ↦ turn_to no_section s rest
]

pub data Outcome : Type 0 where
  finished : AllMetrics → Outcome
  failed : Outcome
  unfinished : Outcome

-- The `while` loop over a file.
unfoldable pub read_file : ℕ → FileState → Outcome
read_file zero s = unfinished
read_file (suc fuel) s = elim (skip_to labels s.lines) [
  | none ↦ finished s.metrics
  | some (index, line, rest) ↦ elim (label_at index >>= λ label. action label s line rest) [
    | none ↦ failed
    | some next ↦ read_file fuel next
  ]
]

-- The loop over the members of the archive: `none` is one that is not a file.
unfoldable pub read_files : List (Option (List Text)) → AllMetrics → Outcome
read_files [] m = finished m
read_files (none ∷ files) m = read_files files m
read_files (some lines ∷ files) m =
    elim (read_file (length lines + 1)
      (record { section = no_section; metrics = m; lines = lines })) [
        | finished m' ↦ read_files files m'
        | failed ↦ failed
        | unfinished ↦ unfinished
      ]
