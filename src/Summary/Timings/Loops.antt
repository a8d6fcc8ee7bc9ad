-- ===== src/Summary/Timings/Loops.antt =====
-- The loops of `aprocess` over the files of an archive and over a file's lines.
use pti_gpu_itt_only.Base.{
  ℕ, zero, suc, ◌+◌, ◌≤◌, ◌<◌, ◌≡◌, ◌≢◌, ◌⊎◌, inl, inr, refl, arith, List, [], ◌∷◌, Option, none,
  some, length, Option-cases, Bool-cases, ◌>>=◌,
}
use pti_gpu_itt_only.Text.{Text, codes}
use pti_gpu_itt_only.Summary.Csv.{label_in, skip_to, is_blank, skip_empty, stop_on_empty, csv_from}
use pti_gpu_itt_only.Summary.Timings.{
  AllMetrics, Reading, no_section, host_section, device_section, comm_section, FileState, Label,
  api_summary, device_summary, stars, execution_time, api_time, device_time, l0_backend,
  append_timing, append_records, section_table, read_table, total_of, total_to, table_to, turn_to,
  label_at, labels, action, Outcome, finished, failed, unfinished, read_file, read_files,
}

skip_to-shorter :
    (names lines : List Text) (index : ℕ) (line : Text) (rest : List Text)
    → skip_to names lines ≡ some (index, line, rest)
    → length rest < length lines
unfolding skip_to
skip_to-shorter names [] index line rest h = absurd (ground arith)
skip_to-shorter names (first ∷ lines) index line rest h =
    elim (Option-cases (label_in 0 names first)) [
      | inr (i, e) ↦ let same : lines ≡ rest = ground arith in rw (← same) (omega arith)
      | inl e ↦
          let later : skip_to names lines ≡ some (index, line, rest) = rw (e, skip_to) at h in
          omega (arith, skip_to-shorter names lines index line rest later)
    ]

skip_empty-shorter :
    (lines : List Text) (line : Text) (rest : List Text)
    → skip_empty lines ≡ some (line, rest)
    → length rest < length lines
unfolding skip_empty
skip_empty-shorter [] line rest h = absurd (ground arith)
skip_empty-shorter (first ∷ lines) line rest h = elim (Bool-cases (is_blank first)) [
  | inl e ↦ omega (arith, skip_empty-shorter lines line rest (rw e at h))
  | inr e ↦
      let k : some (first, lines) ≡ some (line, rest) = rw e at h in
      let same : lines ≡ rest = cc k in rw (← same) (omega arith)
]

stop_on_empty-shorter : (lines : List Text) → length (stop_on_empty lines).1 ≤ length lines
unfolding stop_on_empty
stop_on_empty-shorter [] = omega arith
stop_on_empty-shorter (line ∷ lines) = elim (Bool-cases (is_blank line)) [
  | inl e ↦ rw e (omega arith)
  | inr e ↦ rw e (omega (arith, stop_on_empty-shorter lines))
]

csv_from-shorter :
    (lines header rows behind : List Text)
    → csv_from lines ≡ some (header, rows, behind)
    → length behind ≤ length lines
unfolding csv_from
csv_from-shorter lines header rows behind h = elim (Option-cases (skip_empty lines)) [
  | inl e ↦ absurd (ground arith)
  | inr ((first, rest), e) ↦
      let same : (stop_on_empty rest).1 ≡ behind = ground arith in
      rw (← same) (omega (arith, stop_on_empty-shorter rest, skip_empty-shorter lines first rest e))
]

read_table-shorter :
    (column : Text) (section : Reading) (m m' : AllMetrics) (lines behind : List Text)
    → read_table column section m lines ≡ some (m', behind)
    → length behind ≤ length lines
unfolding read_table
read_table-shorter column section m m' lines behind h = elim (Option-cases (csv_from lines)) [
  | inl e ↦ absurd (ground arith)
  | inr ((header, rows, rest), e) ↦
      elim (Option-cases (append_records column header rows (section_table section m))) [
        | inl e' ↦ absurd (ground (arith, e'))
        | inr (table, e') ↦
            let same : rest ≡ behind = ground (arith, e') in
            rw (← same) (csv_from-shorter lines header rows rest e)
      ]
]

table_to-shorter :
    (column : Text) (section next : Reading) (m : AllMetrics) (s' : FileState) (rest : List Text)
    → table_to column section next m rest ≡ some s'
    → length s'.lines ≤ length rest
table_to-shorter column section next m s' rest h =
    elim (Option-cases (read_table column section m rest)) [
      | inl e ↦ absurd (ground (arith, rw e at h))
      | inr ((m', behind), e) ↦
          let same : behind ≡ s'.lines = cc (rw e at h) in
          rw (← same) (read_table-shorter column section m m' rest behind e)
    ]

total_to-shorter :
    (name : Text) (s s' : FileState) (line : Text) (rest : List Text)
    → total_to name s line rest ≡ some s'
    → length s'.lines ≤ length rest
total_to-shorter name s s' line rest h =
    elim (Option-cases (
      append_timing name (total_of line >>= λ total. some (total, 1))
        (section_table s.section s.metrics))) [
          | inl e ↦ absurd (ground (arith, rw e at h))
          | inr (table, e) ↦
              let same : rest ≡ s'.lines = cc (rw e at h) in rw (← same) (omega arith)
        ]

turn_to-shorter :
    (next : Reading) (s s' : FileState) (rest : List Text)
    → turn_to next s rest ≡ some s'
    → length s'.lines ≤ length rest
turn_to-shorter next s s' rest h = let same : rest ≡ s'.lines = cc h in rw (← same) (omega arith)

pub Reading-cases :
    (r : Reading)
    → (r ≡ no_section) ⊎ ((r ≡ host_section) ⊎ ((r ≡ device_section) ⊎ (r ≡ comm_section)))
Reading-cases r = ground arith

action-shorter :
    (label : Label) (s s' : FileState) (line : Text) (rest : List Text)
    → action label s line rest ≡ some s'
    → length s'.lines ≤ length rest
unfolding action
action-shorter api_summary s s' line rest h = turn_to-shorter host_section s s' rest h
action-shorter device_summary s s' line rest h = turn_to-shorter device_section s s' rest h
action-shorter execution_time s s' line rest h =
    total_to-shorter (codes "Wallclock") s s' line rest h
action-shorter api_time s s' line rest h = total_to-shorter (codes "L0_backend") s s' line rest h
action-shorter device_time s s' line rest h = total_to-shorter (codes "L0_backend") s s' line rest h
action-shorter stars s s' line rest h = elim (Reading-cases s.section) [
  | inl e ↦ turn_to-shorter comm_section s s' rest (rw e at h)
  | inr (inl e) ↦ turn_to-shorter comm_section s s' rest (rw e at h)
  | inr (inr (inl e)) ↦ turn_to-shorter comm_section s s' rest (rw e at h)
  | inr (inr (inr e)) ↦
      table_to-shorter (codes "Function") comm_section no_section s.metrics s' rest (rw e at h)
]
action-shorter l0_backend s s' line rest h = elim (Reading-cases s.section) [
  | inl e ↦ turn_to-shorter no_section s s' rest (rw e at h)
  | inr (inl e) ↦
      table_to-shorter (codes "Function") host_section host_section s.metrics s' rest (rw e at h)
  | inr (inr (inl e)) ↦
      table_to-shorter (codes "Kernel") device_section device_section s.metrics s' rest (rw e at h)
  | inr (inr (inr e)) ↦ turn_to-shorter comm_section s s' rest (rw e at h)
]

-- Every round takes a line at least: with fuel for the lines and one round more, the loop over a file ends
-- without running out of fuel.
read_file-ends : (fuel : ℕ) (s : FileState) → length s.lines < fuel → read_file fuel s ≢ unfinished
unfolding read_file
read_file-ends zero s h = absurd (omega arith)
read_file-ends (suc fuel) s h = elim (Option-cases (skip_to labels s.lines)) [
  | inl e ↦ rw (e, read_file) (ground arith)
  | inr ((index, line, rest), e) ↦ elim (Option-cases (label_at index)) [
    | inl e' ↦ rw (e, read_file) (rw e' (ground arith))
    | inr (label, e') ↦ elim (Option-cases (action label s line rest)) [
      | inl k ↦ rw (e, read_file) (rw e' (rw k (ground arith)))
      | inr (s', k) ↦
          rw (e, read_file)
            (rw e' (
              rw k (
                read_file-ends fuel s' (
                  omega (
                    arith,
                    action-shorter label s s' line rest k,
                    skip_to-shorter labels s.lines index line rest e,
                  )))))
    ]
  ]
]

pub Outcome-cases :
    (o : Outcome) → ((m : AllMetrics) × (o ≡ finished m)) ⊎ ((o ≡ failed) ⊎ (o ≡ unfinished))
Outcome-cases (finished m) = inl (m, refl)
Outcome-cases failed = inr (inl refl)
Outcome-cases unfinished = inr (inr refl)

abbrev pub start : List Text → AllMetrics → FileState
start lines m = record { section = no_section; metrics = m; lines = lines }

-- Reading an archive's files never stops for want of fuel: it ends finished or failed.
pub read_files-ends :
    (files : List (Option (List Text))) (m : AllMetrics) → read_files files m ≢ unfinished
unfolding read_files
read_files-ends [] m = ground arith
read_files-ends (none ∷ files) m = read_files-ends files m
read_files-ends (some lines ∷ files) m =
    elim (Outcome-cases (read_file (length lines + 1) (start lines m))) [
      | inl (m', e) ↦ rw (e, read_files) (read_files-ends files m')
      | inr (inl e) ↦ rw (e, read_files) (ground arith)
      | inr (inr e) ↦ absurd (read_file-ends (length lines + 1) (start lines m) (omega arith) e)
    ]
