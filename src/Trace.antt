-- ===== src/Trace.antt =====
-- `tools/unitrace/scripts/tracemerge/mergetrace.py`: trace files are repaired where their closing
-- tags are missing, and their events are written to one file. `json` is a parameter. A file is its
-- bytes, and the input files are a function from names to contents, so they exist and none of them
-- is the output file. They can be opened for reading and for appending: an error of `open` itself ends
-- the script, and is not modelled. Writing to a file opened for appending, and truncating it, succeeds
-- or fails as the parameters `can_append` and `can_truncate` say, and a failed one changes nothing.
-- Data that is no container, of which `in` raises a TypeError that ends the script, is not considered.
pub mod Repair
pub mod Merge
pub mod View
mod Tests
use pti_gpu_itt_only.Base.{
  ℕ, ◌+◌, ◌-◌, Bool, true, false, List, [], ◌∷◌, ◌++◌, Option, none, some, if◌then◌else◌, length,
  take, drop, ◌==◌,
}
use pti_gpu_itt_only.Text.{Text, codes, text_eq}

-- What the scripts use of Python's `json`: `load` of a file's text, with `none` for an exception;
-- the items that a loop over `data['traceEvents']` meets, with `none` where `data`, an object or an
-- array, has no such key; `dumps`.
pub record Json : Type 1 where
  pub Value : Type 0
  pub load : Text → Option Value
  pub trace_events : Value → Option (List Value)
  pub dumps : Value → Text

-- `"\n]\n}\n"`
abbrev pub closing_tags : Text
closing_tags = codes "\n]\n}\n"

abbrev pub Store : Type 0
Store = Text → Text

abbrev pub update : Store → Text → Text → Store
update store name text other = if text_eq other name then text else store other

module _ (J : Json) where
  -- The tags are added, the file is read again, and if that fails too the change is rolled back.
  unfoldable pub close_tags : Bool → Text → Text × Option J.Value
  close_tags can_truncate text =
      let closed = text ++ closing_tags in
      elim (J.load closed) [
        | some data_ ↦ (closed, some data_)
        | none ↦ (if can_truncate then take (length text) closed else closed, none)
      ]

  -- A file that is not empty: its contents afterwards, and its data unless it was given up.
  unfoldable pub read_trace : Bool → Bool → Text → Text × Option J.Value
  read_trace can_append can_truncate text = elim (J.load text) [
    | some data_ ↦ (text, some data_)
    | none ↦ if can_append then close_tags can_truncate text else (text, none)
  ]

  -- `ofp.write(json.dumps(e))` and `ofp.write(',\n')` for each event.
  unfoldable pub write_events : List J.Value → Text → Text
  write_events [] out = out
  write_events (e ∷ events) out = write_events events ((out ++ J.dumps e) ++ codes ",\n")

  unfoldable pub write_data : Option J.Value → Text → Text
  write_data none out = out
  write_data (some data_) out = elim (J.trace_events data_) [
    | none ↦ out
    | some events ↦ write_events events out
  ]

  module _ (can_append can_truncate : Text → Bool) where
    -- The body of the loop over the input files.
    unfoldable pub merge_file : Text → Store × Text → Store × Text
    merge_file name (store, out) =
        if length (store name) == 0
        then (store, out)
        else let (text, data_) = read_trace (can_append name) (can_truncate name) (store name) in
          (update store name text, write_data data_ out)

    unfoldable pub merge_files : List Text → Store × Text → Store × Text
    merge_files [] s = s
    merge_files (name ∷ names) s = merge_files names (merge_file name s)

-- What the output file holds before its first event.
abbrev pub opening : Text
opening = codes "{\n" ++ codes "\"traceEvents\": [\n"

-- `seek(pos)`, then a write: what stood there is overwritten.
abbrev pub write_at : ℕ → Text → Text → Text
write_at pos new text = take pos text ++ (new ++ drop (pos + length new) text)

-- "undo last ',\n'", and the tags that close the output.
unfoldable pub close_output : Text → Text
close_output out =
    let pos = length out - 2 in write_at (pos + 3) (codes "}\n") (write_at pos (codes "\n]\n") out)

module _ (J : Json) (can_append can_truncate : Text → Bool) where
  -- The script: the input files afterwards, and the output file.
  unfoldable pub merge : List Text → Store → Store × Text
  merge names store =
      let (store', out) = merge_files J can_append can_truncate names (store, opening) in
      (store', close_output out)
