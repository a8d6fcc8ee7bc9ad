-- ===== src/Summary/Timings/Records.antt =====
-- The records of a table of a summary file, and what the loop over them appends to a section's metrics.
use pti_gpu_itt_only.Base.{
  ℕ, ◌≡◌, ◌⊎◌, ◌∙◌, sym, ap, refl, inl, inr, arith, true, false, List, [], ◌∷◌, ◌++◌, Option, none,
  some, if◌then◌else◌, ◌>>=◌, Option-cases, Bool-cases, append_assoc, append-nil,
}
use pti_gpu_itt_only.Text.{Text, codes, text_eq, text_eq_iff}
use pti_gpu_itt_only.Summary.Csv.{csv_row, start_field, field, int_of}
use pti_gpu_itt_only.Summary.Timings.{
  Timing, Metrics, touch_entry, push_timing, append_timing, record_timing, append_records,
}

-- The timings of a name, in order.
abbrev pub timings_of : Text → Metrics → List Timing
timings_of name [] = []
timings_of name ((other, timings) ∷ table) =
    if text_eq other name then timings else timings_of name table

-- Those of the records with a name.
abbrev pub own_timings : Text → List (Text × Timing) → List Timing
own_timings name [] = []
own_timings name ((other, timing) ∷ records) =
    if text_eq other name then timing ∷ own_timings name records else own_timings name records

-- A row's field of a column, as a number.
unfoldable pub number_in : List Text → Text → Text → Option ℕ
number_in header label row = field header (csv_row start_field row) label >>= λ s. int_of s

-- What a row says: the name in the column, the time and the calls.
abbrev pub IsRecord : Text → List Text → Text → Text × Timing → Type 0
IsRecord column header row (name, (time, calls)) =
    (field header (csv_row start_field row) column ≡ some name)
    × ((number_in header (codes "Time (ns)") row ≡ some time)
        × (number_in header (codes "Calls") row ≡ some calls))

abbrev pub AreRecords : Text → List Text → List Text → List (Text × Timing) → Type 0
AreRecords column header [] [] = Unit
AreRecords column header [] (r ∷ records) = ⊥
AreRecords column header (row ∷ rows) [] = ⊥
AreRecords column header (row ∷ rows) (r ∷ records) =
    IsRecord column header row r × AreRecords column header rows records

timings_of-push_timing :
    (name other : Text) (timing : Timing) (table : Metrics)
    → timings_of name (push_timing other timing (touch_entry other table))
      ≡ timings_of name table ++ own_timings name ((other, timing) ∷ [])
unfolding push_timing touch_entry
timings_of-push_timing name other timing [] =
    let same : text_eq other other ≡ true = (text_eq_iff other other).1 refl in
    elim (Bool-cases (text_eq other name)) [ inl e ↦ rw (same, e) refl | inr e ↦ rw (same, e) refl ]
timings_of-push_timing name other timing ((third, timings) ∷ table) =
    let rest = timings_of-push_timing name other timing table in
    elim (Bool-cases (text_eq third other)) [
      | inl e ↦
          let same : third ≡ other = (text_eq_iff third other).0 e in
          let named : text_eq third name ≡ text_eq other name = ap (λ t. text_eq t name) same in
          elim (Bool-cases (text_eq other name)) [
            | inl k ↦ rw (e, push_timing) (rw (e) (rw (named ∙ k, k) refl))
            | inr k ↦
                rw (e, push_timing)
                  (rw (e) (rw (named ∙ k, k) (sym (append-nil (timings_of name table)))))
          ]
      | inr e ↦ elim (Bool-cases (text_eq third name)) [
        | inl k ↦
            let apart : text_eq other name ≡ false =
              ground
                (arith, text_eq_iff third name, text_eq_iff other name, text_eq_iff third other) in
            rw (e, push_timing) (rw (e) (rw (k, apart) (sym (append-nil timings))))
        | inr k ↦ rw (e, push_timing) (rw (e) (rw k rest))
      ]
    ]

own_timings-cons :
    (name : Text) (r : Text × Timing) (records : List (Text × Timing))
    → own_timings name (r ∷ records) ≡ own_timings name (r ∷ []) ++ own_timings name records
own_timings-cons name (other, timing) records = elim (Bool-cases (text_eq other name)) [
  | inl e ↦ rw e refl
  | inr e ↦ rw e refl
]

-- A row that says nothing: its name, its time or its calls cannot be read.
abbrev pub IsUnread : Text → List Text → Text → Type 0
IsUnread column header row = (r : Text × Timing) → ¬ IsRecord column header row r

abbrev pub HasUnread : Text → List Text → List Text → Type 0
HasUnread column header [] = ⊥
HasUnread column header (row ∷ rows) = IsUnread column header row ⊎ HasUnread column header rows

record_timing-number_in :
    (header : List Text) (row : Text)
    → record_timing header row ≡ (
        number_in header (codes "Time (ns)") row >>= λ time.
        number_in header (codes "Calls") row >>= λ calls. some (time, calls))
unfolding record_timing number_in
record_timing-number_in header row =
    elim (Option-cases (field header (csv_row start_field row) (codes "Time (ns)"))) [
      | inl e ↦ rw e refl
      | inr (s, e) ↦ elim (Option-cases (int_of s)) [
        | inl k ↦ rw e (rw k refl)
        | inr (time, k) ↦
            elim (Option-cases (field header (csv_row start_field row) (codes "Calls"))) [
              | inl e' ↦ rw e (rw k (rw e' refl))
              | inr (s', e') ↦ rw e (rw k (rw e' refl))
            ]
      ]
    ]

row-cases :
    (column : Text) (header : List Text) (row : Text)
    → ((r : Text × Timing) × IsRecord column header row r × (record_timing header row ≡ some r.1))
      ⊎ (IsUnread column header row
          × ((field header (csv_row start_field row) column ≡ none)
              ⊎ (record_timing header row ≡ none)))
row-cases column header row =
    let timing = record_timing-number_in header row in
    elim (Option-cases (field header (csv_row start_field row) column)) [
      | inl e ↦ inr ((λ r h. absurd (ground arith)), inl e)
      | inr (name, e) ↦ elim (Option-cases (number_in header (codes "Time (ns)") row)) [
        | inl t ↦ inr ((λ r h. absurd (ground arith)), inr (timing ∙ rw t refl))
        | inr (time, t) ↦ elim (Option-cases (number_in header (codes "Calls") row)) [
          | inl c ↦ inr ((λ r h. absurd (ground arith)), inr (timing ∙ rw (t, c) refl))
          | inr (calls, c) ↦ inl ((name, (time, calls)), (e, (t, c)), timing ∙ rw (t, c) refl)
        ]
      ]
    ]

pub append_records-cases :
    (column : Text) (header rows : List Text) (table : Metrics)
    → ((records : List (Text × Timing)) × (table' : Metrics) × AreRecords column header rows records
        × (append_records column header rows table ≡ some table')
        × ((name : Text)
            → timings_of name table' ≡ timings_of name table ++ own_timings name records))
      ⊎ ((append_records column header rows table ≡ none) × HasUnread column header rows)
unfolding append_records append_timing
append_records-cases column header [] table =
    inl ([], table, tt, refl, (λ name. sym (append-nil (timings_of name table))))
append_records-cases column header (row ∷ rows) table = elim (row-cases column header row) [
  | inr (unread, inl e) ↦ inr (rw e refl, inl unread)
  | inr (unread, inr e) ↦ elim (Option-cases (field header (csv_row start_field row) column)) [
    | inl n ↦ inr (rw n refl, inl unread)
    | inr (name, n) ↦ inr (rw n (rw e refl), inl unread)
  ]
  | inl ((name, timing), (named, numbers), e) ↦
      let table' = push_timing name timing (touch_entry name table) in
      elim (append_records-cases column header rows table') [
        | inr (fails, later) ↦ inr (rw (named) (rw e fails), inr later)
        | inl (records, last, are, ends, appended) ↦ inl (
          (name, timing) ∷ records,
          last,
          ((named, numbers), are),
          rw (named) (rw e ends),
          (λ own.
              appended own
              ∙ ap (λ l. l ++ own_timings own records)
                  (timings_of-push_timing own name timing table)
              ∙ append_assoc (timings_of own table) (own_timings own ((name, timing) ∷ []))
                  (own_timings own records)
              ∙ ap (λ l. timings_of own table ++ l)
                  (sym (own_timings-cons own (name, timing) records))),
        )
      ]
]
