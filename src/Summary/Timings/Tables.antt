-- ===== src/Summary/Timings/Tables.antt =====
-- The actions at the labels before the tables of `aprocess`'s sections.
use pti_gpu_itt_only.Base.{◌≡◌, ◌⊎◌, ◌∙◌, ap, refl, inl, inr, arith, List, ◌++◌, Option, none, some}
use pti_gpu_itt_only.Text.{Text, codes}
use pti_gpu_itt_only.Summary.Csv.{csv_from}
use pti_gpu_itt_only.Summary.Timings.{
  Timing, Metrics, AllMetrics, Reading, no_section, host_section, device_section, comm_section,
  FileState, Label, api_summary, device_summary, stars, execution_time, api_time, device_time,
  l0_backend, update_section, section_table, read_table, table_to, action,
}
use pti_gpu_itt_only.Summary.Timings.Loops.{Reading-cases}
use pti_gpu_itt_only.Summary.Timings.Records.{
  timings_of, own_timings, AreRecords, HasUnread, append_records-cases,
}

-- The column of the names, where a label stands before a section's table.
abbrev pub table_column : Label → Reading → Option Text
table_column l0_backend host_section = some (codes "Function")
table_column l0_backend device_section = some (codes "Kernel")
table_column stars comm_section = some (codes "Function")
table_column _ _ = none

-- The section behind a section's table.
abbrev pub behind_table : Reading → Reading
behind_table comm_section = no_section
behind_table section = section

-- The other sections' metrics stay.
abbrev pub IsOnlyIn : Reading → AllMetrics → AllMetrics → Type 0
IsOnlyIn host_section m m' = (m'.device ≡ m.device) × (m'.comm ≡ m.comm)
IsOnlyIn device_section m m' = (m'.host ≡ m.host) × (m'.comm ≡ m.comm)
IsOnlyIn comm_section m m' = (m'.host ≡ m.host) × (m'.device ≡ m.device)
IsOnlyIn no_section m m' = (m'.host ≡ m.host) × (m'.device ≡ m.device)

section_table-update_section :
    (section : Reading) (table : Metrics) (m : AllMetrics)
    → (section_table section (update_section section (λ _. table) m) ≡ table)
      × IsOnlyIn section m (update_section section (λ _. table) m)
unfolding update_section
section_table-update_section host_section table m = (refl, (refl, refl))
section_table-update_section device_section table m = (refl, (refl, refl))
section_table-update_section comm_section table m = (refl, (refl, refl))
section_table-update_section no_section table m = (refl, (refl, refl))

action-table_to :
    (label : Label) (s : FileState) (line : Text) (rest : List Text) (column : Text)
    → table_column label s.section ≡ some column
    → action label s line rest ≡ table_to column s.section (behind_table s.section) s.metrics rest
unfolding action
action-table_to l0_backend s line rest column h = elim (Reading-cases s.section) [
  | inl e ↦ absurd (let k : none ≡ some column = rw e at h in ground arith)
  | inr (inl e) ↦
      let k : codes "Function" ≡ column = cc (rw e at h) in
      rw e (ap (λ c. table_to c host_section host_section s.metrics rest) k)
  | inr (inr (inl e)) ↦
      let k : codes "Kernel" ≡ column = cc (rw e at h) in
      rw e (ap (λ c. table_to c device_section device_section s.metrics rest) k)
  | inr (inr (inr e)) ↦ absurd (let k : none ≡ some column = rw e at h in ground arith)
]
action-table_to stars s line rest column h = elim (Reading-cases s.section) [
  | inl e ↦ absurd (let k : none ≡ some column = rw e at h in ground arith)
  | inr (inl e) ↦ absurd (let k : none ≡ some column = rw e at h in ground arith)
  | inr (inr (inl e)) ↦ absurd (let k : none ≡ some column = rw e at h in ground arith)
  | inr (inr (inr e)) ↦
      let k : codes "Function" ≡ column = cc (rw e at h) in
      rw e (ap (λ c. table_to c comm_section no_section s.metrics rest) k)
]
action-table_to api_summary s line rest column h = absurd (ground arith)
action-table_to device_summary s line rest column h = absurd (ground arith)
action-table_to execution_time s line rest column h = absurd (ground arith)
action-table_to api_time s line rest column h = absurd (ground arith)
action-table_to device_time s line rest column h = absurd (ground arith)

-- What reading a table gives, for each of the names.
abbrev pub IsRead :
    Text
    → Reading
    → Reading
    → AllMetrics
    → List Text
    → List Text
    → List Text
    → Text
    → List (Text × Timing)
    → FileState
    → Type 0
IsRead column section next m header rows behind name records s' =
    AreRecords column header rows records
    × (timings_of name (section_table section s'.metrics)
        ≡ timings_of name (section_table section m) ++ own_timings name records)
    × IsOnlyIn section m s'.metrics
    × (s'.section ≡ next)
    × (s'.lines ≡ behind)

table_to-cases :
    (column : Text) (section next : Reading) (m : AllMetrics) (rest header rows behind : List Text)
    (name : Text)
    → csv_from rest ≡ some (header, rows, behind)
    → ((records : List (Text × Timing)) × (s' : FileState) × (table_to column section next m rest
          ≡ some s')
        × IsRead column section next m header rows behind name records s')
      ⊎ ((table_to column section next m rest ≡ none) × HasUnread column header rows)
unfolding read_table
table_to-cases column section next m rest header rows behind name h =
    elim (append_records-cases column header rows (section_table section m)) [
      | inr (fails, unread) ↦ inr (rw (h, fails) refl, unread)
      | inl (records, table, are, ends, appended) ↦
          let (own, only) = section_table-update_section section table m in
          inl (
            records,
            record {
              section = next;
              metrics = update_section section (λ _. table) m;
              lines = behind;
            },
            rw (h, ends) refl,
            (are, ap (timings_of name) own ∙ appended name, only, refl, refl),
          )
    ]

-- Let a label stand before a section's table, and let the table have a header. Then either every row has a
-- name in the section's column and numbers in the columns `Time (ns)` and `Calls`, and the label's action
-- ends without an error: the list of each name in this section's metrics gets the time and the calls of
-- this name's rows at its end, in the order of the rows, the other sections' metrics stay, and the lines
-- behind the table are read next, in no section if the table is communication's and in the same section
-- otherwise. Or some row lacks its name, its time or its calls, and the action is an error.
pub action-timings_of :
    (label : Label) (s : FileState) (line : Text) (rest : List Text) (column : Text)
    (header rows behind : List Text) (name : Text)
    → table_column label s.section ≡ some column
    → csv_from rest ≡ some (header, rows, behind)
    → ((records : List (Text × Timing)) × (s' : FileState) × (action label s line rest ≡ some s')
        × IsRead column s.section
            (behind_table s.section)
            s.metrics
            header
            rows
            behind
            name
            records
            s')
      ⊎ ((action label s line rest ≡ none) × HasUnread column header rows)
action-timings_of label s line rest column header rows behind name h k =
    rw (action-table_to label s line rest column h) (
      table_to-cases column s.section (behind_table s.section) s.metrics rest header rows behind
        name k)
