-- ===== src/Trace/Merge.antt =====
-- The merged output, and the input files after a merge.
pub mod Output
use pti_gpu_itt_only.Base.{
  ◌||◌, ◌-◌, ◌+◌, take, drop, ◌≤◌, ℕ, suc, Bool, true, false, List, [], ◌∷◌, ◌++◌, ◌≡◌, ◌∙◌, refl,
  sym, ap, arith, Option, none, some, if◌then◌else◌, length, ◌==◌, append_assoc, append-nil, inl,
  inr, Bool-cases,
}
use pti_gpu_itt_only.Text.{Text, codes, text_eq, text_eq_iff}
use pti_gpu_itt_only.Trace.{
  merge_files, opening, write_at, close_output, merge, Json, Store, update, write_events,
  write_data, merge_file,
}
use pti_gpu_itt_only.Trace.Repair.{data_of, kept, read_trace_lem}

abbrev pub is_listed : Text → List Text → Bool
is_listed other [] = false
is_listed other (name ∷ names) = text_eq other name || is_listed other names

module _ (J : Json) where
  abbrev pub events_in : Option J.Value → List J.Value
  events_in none = []
  events_in (some v) = elim (J.trace_events v) [ none ↦ [] | some events ↦ events ]

  -- The events of a file: those of its data as it stands, or with the closing tags added.
  abbrev pub file_events : Bool → Text → List J.Value
  file_events can_append [] = []
  file_events can_append (c ∷ text) = events_in (data_of J can_append (c ∷ text))

  -- The contents of a file after the merge.
  abbrev pub tidied : Bool → Text → Text
  tidied can_append [] = []
  tidied can_append (c ∷ text) = kept J can_append (c ∷ text)

  abbrev pub event_lines : List J.Value → Text
  event_lines [] = []
  event_lines (e ∷ events) = J.dumps e ++ (codes ",\n" ++ event_lines events)

  event_lines-append :
      (xs ys : List J.Value) → event_lines (xs ++ ys) ≡ event_lines xs ++ event_lines ys
  event_lines-append [] ys = refl
  event_lines-append (x ∷ xs) ys =
      ap (λ t. J.dumps x ++ (codes ",\n" ++ t)) (event_lines-append xs ys)
      ∙ sym (append_assoc (J.dumps x) (codes ",\n" ++ event_lines xs) (event_lines ys))

  write_events-lines :
      (events : List J.Value) (out : Text) → write_events J events out ≡ out ++ event_lines events
  unfolding write_events
  write_events-lines [] out = sym (append-nil out)
  write_events-lines (e ∷ events) out =
      write_events-lines events _
      ∙ append_assoc (out ++ J.dumps e) (codes ",\n") (event_lines events)
      ∙ append_assoc out (J.dumps e) (codes ",\n" ++ event_lines events)

  write_data-lines :
      (data_ : Option J.Value) (out : Text)
      → write_data J data_ out ≡ out ++ event_lines (events_in data_)
  unfolding write_data
  write_data-lines none out = sym (append-nil out)
  write_data-lines (some v) out = go (J.trace_events v)
    where
      go :
          (events : Option (List J.Value))
          → (elim events [ none ↦ out | some es ↦ write_events J es out ])
            ≡ out ++ event_lines (elim events [ none ↦ [] | some es ↦ es ])
      go none = sym (append-nil out)
      go (some es) = write_events-lines es out

  data_of-kept :
      (can_append : Bool) (text : Text)
      → data_of J can_append (kept J can_append text) ≡ data_of J can_append text
  data_of-kept can_append text = ground arith

  kept-kept :
      (can_append : Bool) (text : Text)
      → kept J can_append (kept J can_append text) ≡ kept J can_append text
  kept-kept can_append text = ground arith

  file_events-tidied :
      (can_append : Bool) (text : Text)
      → file_events can_append (tidied can_append text) ≡ file_events can_append text
  file_events-tidied can_append [] = refl
  file_events-tidied can_append (c ∷ text) = ground arith

  tidied-tidied :
      (can_append : Bool) (text : Text)
      → tidied can_append (tidied can_append text) ≡ tidied can_append text
  tidied-tidied can_append [] = refl
  tidied-tidied can_append (c ∷ text) = ground arith

  -- The events of all input files, as they stood before the merge.
  abbrev pub merged_events : (Text → Bool) → List Text → Store → List J.Value
  merged_events can_append [] store = []
  merged_events can_append (name ∷ names) store =
      file_events (can_append name) (store name) ++ merged_events can_append names store

  merged_events-same :
      (can_append : Text → Bool) (names : List Text) (s t : Store)
      → ((name : Text)
          → file_events (can_append name) (s name) ≡ file_events (can_append name) (t name))
      → merged_events can_append names s ≡ merged_events can_append names t
  merged_events-same can_append [] s t h = refl
  merged_events-same can_append (name ∷ names) s t h =
      rw (h name, merged_events-same can_append names s t h) refl

  suc-ne-zero : (n : ℕ) → (suc n == 0) ≡ false
  suc-ne-zero n = ground arith

  module _ (can_append can_truncate : Text → Bool)
      (truncates : (name : Text) → can_truncate name ≡ true) where
    merge_file_nil :
        (name : Text) (store : Store) (out : Text)
        → store name ≡ []
        → merge_file J can_append can_truncate name (store, out) ≡ (store, out)
    unfolding merge_file
    merge_file_nil name store out h = rw (h, merge_file)

    merge_file_cons :
        (name : Text) (store : Store) (out : Text) (c : ℕ) (text : Text)
        → store name ≡ c ∷ text
        → merge_file J can_append can_truncate name (store, out) ≡ (
          update store name (kept J (can_append name) (c ∷ text)),
          out ++ event_lines (events_in (data_of J (can_append name) (c ∷ text))),
        )
    unfolding merge_file
    merge_file_cons name store out c text h =
        rw (h, merge_file, truncates name, read_trace_lem J (can_append name) (c ∷ text))
          (rw (suc-ne-zero (length text))
            (rw (write_data-lines (data_of J (can_append name) (c ∷ text)) out)))

    -- One file: what every file holds afterwards, and what is added to the output.
    merge_file_effect :
        (name : Text) (store : Store) (out : Text) (text : Text)
        → store name ≡ text
        → ((other : Text)
            → (merge_file J can_append can_truncate name (store, out)).0 other ≡ (
                if text_eq other name
                then tidied (can_append other) (store other)
                else store other))
          × ((merge_file J can_append can_truncate name (store, out)).1
              ≡ out ++ event_lines (file_events (can_append name) text))
    merge_file_effect name store out [] h = (
      (λ other. rw (merge_file_nil name store out h) (elim (Bool-cases (text_eq other name)) [
        | inl e ↦ rw (e, (text_eq_iff other name).0 e, h)
        | inr e ↦ rw e
      ])),
      rw (merge_file_nil name store out h) (sym (append-nil out)),
    )
    merge_file_effect name store out (c ∷ text) h = (
      (λ other.
          rw (merge_file_cons name store out c text h) (elim (Bool-cases (text_eq other name)) [
            | inl e ↦ rw (e, (text_eq_iff other name).0 e, h)
            | inr e ↦ rw e
          ])),
      rw (merge_file_cons name store out c text h),
    )

    merge_file-events :
        (name : Text) (store : Store) (out : Text) (other : Text)
        → file_events
            (can_append other)
            ((merge_file J can_append can_truncate name (store, out)).0 other)
          ≡ file_events (can_append other) (store other)
    merge_file-events name store out other =
        rw ((merge_file_effect name store out (store name) refl).0 other) (go (text_eq other name))
      where
        go :
            (b : Bool)
            → file_events
                (can_append other)
                (if b then tidied (can_append other) (store other) else store other)
              ≡ file_events (can_append other) (store other)
        go true = file_events-tidied (can_append other) (store other)
        go false = refl

    merge_files_out :
        (names : List Text) (store : Store) (out : Text)
        → (merge_files J can_append can_truncate names (store, out)).1
          ≡ out ++ event_lines (merged_events can_append names store)
    unfolding merge_files
    merge_files_out [] store out = sym (append-nil out)
    merge_files_out (name ∷ names) store out =
        let s = merge_file J can_append can_truncate name (store, out) in
        merge_files_out names s.0 s.1
        ∙ rw
            (
              (merge_file_effect name store out (store name) refl).1,
              merged_events-same can_append names s.0 store (merge_file-events name store out),
              event_lines-append (file_events (can_append name) (store name))
                  (merged_events can_append names store),
            )
            (append_assoc out _ _)

    merge_files_store :
        (names : List Text) (store : Store) (out : Text) (other : Text)
        → (merge_files J can_append can_truncate names (store, out)).0 other
          ≡ (if is_listed other names then tidied (can_append other) (store other) else store other)
    unfolding merge_files
    merge_files_store [] store out other = refl
    merge_files_store (name ∷ names) store out other =
        let s = merge_file J can_append can_truncate name (store, out) in
        merge_files_store names s.0 s.1 other
        ∙ rw ((merge_file_effect name store out (store name) refl).0 other)
            (go (text_eq other name) (is_listed other names))
      where
        go :
            (b c : Bool)
            → (if c
                then tidied
                    (can_append other)
                    (if b then tidied (can_append other) (store other) else store other)
                else if b
                then tidied (can_append other) (store other)
                else store other)
              ≡ (if b || c then tidied (can_append other) (store other) else store other)
        go true true = tidied-tidied (can_append other) (store other)
        go true false = refl
        go false true = refl
        go false false = refl
