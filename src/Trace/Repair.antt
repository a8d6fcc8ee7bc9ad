-- ===== src/Trace/Repair.antt =====
-- The repair of one file.
use pti_gpu_itt_only.Base.{
  Bool, true, false, ◌++◌, ◌≡◌, ◌∙◌, refl, sym, ap, arith, Option, none, some, if◌then◌else◌,
  length, take, take-append, inl, inr, Option-cases,
}
use pti_gpu_itt_only.Text.{Text}
use pti_gpu_itt_only.Trace.{Json, closing_tags, close_tags, read_trace}

module _ (J : Json) where
  -- The data of a file as it stands, or with the closing tags added.
  abbrev pub data_of : Bool → Text → Option J.Value
  data_of can_append text = elim (J.load text) [
    | some data_ ↦ some data_
    | none ↦ if can_append then J.load (text ++ closing_tags) else none
  ]

  -- The contents that such a file is left with.
  abbrev pub kept : Bool → Text → Text
  kept can_append text = elim (J.load text) [
    | some _ ↦ text
    | none ↦
        if can_append
        then elim (J.load (text ++ closing_tags)) [ some _ ↦ text ++ closing_tags | none ↦ text ]
        else text
  ]

  close_tags_lem :
      (text : Text)
      → close_tags J true text ≡ (
        elim (J.load (text ++ closing_tags)) [ some _ ↦ text ++ closing_tags | none ↦ text ],
        J.load (text ++ closing_tags),
      )
  unfolding close_tags
  close_tags_lem text =
      go (J.load (text ++ closing_tags)) (take (length text) (text ++ closing_tags))
        (take-append text closing_tags)
    where
      go :
          (loaded : Option J.Value) (rolled_back : Text)
          → rolled_back ≡ text
          → ◌≡◌ {A = Text × Option J.Value}
              (elim loaded [ some v ↦ (text ++ closing_tags, some v) | none ↦ (rolled_back, none) ])
              (elim loaded [ some _ ↦ text ++ closing_tags | none ↦ text ], loaded)
      go none rolled_back h = λ i. (h i, none)
      go (some v) rolled_back h = refl

  read_trace-readable :
      (can_append : Bool) (text : Text) {v : J.Value}
      → J.load text ≡ some v
      → read_trace J can_append true text ≡ (kept can_append text, data_of can_append text)
  unfolding read_trace
  read_trace-readable can_append text h = rw (h, read_trace, kept, data_of)

  read_trace-unreadable :
      (can_append : Bool) (text : Text)
      → J.load text ≡ none
      → read_trace J can_append true text ≡ (kept can_append text, data_of can_append text)
  unfolding read_trace
  read_trace-unreadable true text h = rw (h, read_trace, kept, data_of) (close_tags_lem text)
  read_trace-unreadable false text h = rw (h, read_trace, kept, data_of)

  -- Where truncation works, a file is left as it was unless the closing tags make it readable, and
  -- what is read is the data of the file as it stood or with the tags added.
  pub read_trace_lem :
      (can_append : Bool) (text : Text)
      → read_trace J can_append true text ≡ (kept can_append text, data_of can_append text)
  read_trace_lem can_append text = elim (Option-cases (J.load text)) [
    | inr (v, h) ↦ read_trace-readable can_append text h
    | inl h ↦ read_trace-unreadable can_append text h
  ]

  kept_again :
      (can_append : Bool) (text : Text) {v : J.Value}
      → data_of can_append text ≡ some v
      → (kept can_append (kept can_append text) ≡ kept can_append text)
        × (data_of can_append (kept can_append text) ≡ some v)
  kept_again can_append text h = ground arith

  -- Where truncation works, a file whose data are read gives the same data when it is read again,
  -- from the contents that it was left with, and is not changed again.
  pub read_trace_again :
      (can_append : Bool) (text tidied : Text) (v : J.Value)
      → read_trace J can_append true text ≡ (tidied, some v)
      → read_trace J can_append true tidied ≡ (tidied, some v)
  read_trace_again can_append text tidied v h =
      let both = sym (read_trace_lem can_append text) ∙ h in
      let left : kept can_append text ≡ tidied = ap (λ r. r.0) both in
      let given : data_of can_append text ≡ some v = ap (λ r. r.1) both in
      let (same, data_) = kept_again can_append text given in
      rw (← left) (read_trace_lem can_append (kept can_append text) ∙ rw (same, data_) refl)
