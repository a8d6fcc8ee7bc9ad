-- ===== src/Trace/Merge/Output.antt =====
-- The output file as a whole.
use pti_gpu_itt_only.Base.{
  ℕ, zero, suc, ◌+◌, ◌-◌, ◌≤◌, Bool, true, List, [], ◌∷◌, ◌++◌, ◌≡◌, ◌∙◌, refl, sym, ap, arith,
  if◌then◌else◌, length, drop, append_assoc, append-nil, length-append, take-append,
}
use pti_gpu_itt_only.Text.{Text, codes}
use pti_gpu_itt_only.Trace.{Json, Store, opening, write_at, close_output, merge}
use pti_gpu_itt_only.Trace.Merge.{
  event_lines, merged_events, merge_files_out, merge_files_store, is_listed, tidied,
}

drop-past : (n : ℕ) (xs : Text) → length xs ≤ n → drop n xs ≡ []
drop-past zero [] h = refl
drop-past zero (x ∷ xs) h = absurd (omega arith)
drop-past (suc n) [] h = refl
drop-past (suc n) (x ∷ xs) h = drop-past n xs (omega arith)

-- A write at `pos` that reaches the end of the file or goes beyond it.
write_at-end :
    (body end new : Text)
    → length end ≤ length new
    → write_at (length body) new (body ++ end) ≡ body ++ new
write_at-end body end new h =
    rw
      (
        take-append body end,
        drop-past (length body + length new) (body ++ end) (omega (arith, length-append body end)),
      )
      (ap (λ t. body ++ t) (append-nil new))

close_output_lem :
    (body : Text) (x y : ℕ) → close_output (body ++ (x ∷ y ∷ [])) ≡ body ++ codes "\n]\n}\n"
unfolding close_output
close_output_lem body x y =
    let pos : length (body ++ (x ∷ y ∷ [])) - 2 ≡ length body =
      omega (arith, length-append body (x ∷ y ∷ [])) in
    let more : length body + 3 ≡ length (body ++ codes "\n]\n") =
      omega (arith, length-append body (codes "\n]\n")) in
    rw (pos, write_at-end body (x ∷ y ∷ []) (codes "\n]\n") (omega arith))
      (rw more (
        ap (λ t. write_at (length (body ++ codes "\n]\n")) (codes "}\n") t) (sym (append-nil _))
        ∙ write_at-end (body ++ codes "\n]\n") [] (codes "}\n") (omega arith)
        ∙ append_assoc body (codes "\n]\n") (codes "}\n")))

module _ (J : Json) where
  -- `",\n"` between the events.
  abbrev pub joined : J.Value → List J.Value → Text
  joined e [] = J.dumps e
  joined e (f ∷ events) = J.dumps e ++ (codes ",\n" ++ joined f events)

  event_lines-joined :
      (e : J.Value) (events : List J.Value)
      → event_lines J (e ∷ events) ≡ joined e events ++ codes ",\n"
  event_lines-joined e [] = refl
  event_lines-joined e (f ∷ events) =
      ap (λ t. J.dumps e ++ (codes ",\n" ++ t)) (event_lines-joined f events)
      ∙ sym (append_assoc (J.dumps e) (codes ",\n" ++ joined f events) (codes ",\n"))

  module _ (can_append can_truncate : Text → Bool)
      (truncates : (name : Text) → can_truncate name ≡ true) where
    merge_out :
        (names : List Text) (store : Store)
        → (merge J can_append can_truncate names store).1
          ≡ close_output (opening ++ event_lines J (merged_events J can_append names store))
    unfolding merge
    merge_out names store =
        ap close_output (merge_files_out J can_append can_truncate truncates names store opening)

    -- Where truncation works and some input file yields an event, the output is the opening, the
    -- events of all input files in the order of the files with commas between them, and the closing
    -- tags. The events of a file are those under its key `traceEvents` as the file stands, or else
    -- with the closing tags added; a file that cannot be read either way yields none.
    pub merge-joined :
        (names : List Text) (store : Store) (e : J.Value) (events : List J.Value)
        → merged_events J can_append names store ≡ e ∷ events
        → (merge J can_append can_truncate names store).1
          ≡ opening ++ (joined e events ++ codes "\n]\n}\n")
    merge-joined names store e events h =
        merge_out names store
        ∙ rw (h, event_lines-joined e events)
            (ap close_output (sym (append_assoc opening (joined e events) (codes ",\n")))
              ∙ close_output_lem (opening ++ joined e events) b',' b'\n'
              ∙ append_assoc opening (joined e events) (codes "\n]\n}\n"))

    -- Where truncation works and no input file yields an event, the bracket that opens the array is
    -- overwritten by the closing tags.
    pub merge_no_events :
        (names : List Text) (store : Store)
        → merged_events J can_append names store ≡ []
        → (merge J can_append can_truncate names store).1 ≡ codes "{\n\"traceEvents\": \n]\n}\n"
    merge_no_events names store h =
        merge_out names store ∙ rw h (close_output_lem (codes "{\n\"traceEvents\": ") b'[' b'\n')

    -- Where truncation works, a file that is no input of the merge is left alone, and so is an empty
    -- one; another is left as it was unless the closing tags make it readable: then they are added.
    pub merge-tidied :
        (names : List Text) (store : Store) (other : Text)
        → (merge J can_append can_truncate names store).0 other ≡ (
            if is_listed other names
            then tidied J (can_append other) (store other)
            else store other)
    unfolding merge
    merge-tidied names store other =
        merge_files_store J can_append can_truncate truncates names store opening other
