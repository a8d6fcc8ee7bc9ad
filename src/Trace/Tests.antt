-- ===== src/Trace/Tests.antt =====
-- Runs over a toy `json` and the theorems at them: a text with a brace is readable, and one with an
-- `E` holds a single event.
use pti_gpu_itt_only.Base.{
  Bool, true, false, List, [], ◌∷◌, ◌++◌, ◌≡◌, refl, none, some, if◌then◌else◌,
}
use pti_gpu_itt_only.Text.{Text, codes, contains, text_eq}
use pti_gpu_itt_only.Trace.{Json, Store, opening, read_trace, close_tags, merge}
use pti_gpu_itt_only.Trace.Merge.Output.{joined, merge-joined, merge_no_events, merge-tidied}
use pti_gpu_itt_only.Trace.View.{
  ViewArgs, Files, is_stall_file, has_https, view, validate_trace, shown,
}
use pti_gpu_itt_only.Trace.View.Laws.{view_failed}

abbrev toy : Json
toy = record {
  Value = Text;
  load = λ t. if contains t (codes "}") then some t else none;
  trace_events = λ v. if contains v (codes "E") then some (codes "x" ∷ []) else none;
  dumps = λ v. v;
}

abbrev always : Text → Bool
always name = true

abbrev never : Text → Bool
never name = false

-- One file is complete, one lacks its closing tags, and one is empty.
abbrev files : Store
files name =
    if text_eq name (codes "a")
    then codes "E}"
    else if text_eq name (codes "b")
    then codes "E"
    else []

abbrev names : List Text
names = codes "a" ∷ codes "c" ∷ codes "b" ∷ []

merge-joined_example :
    (merge toy always always names files).1
    ≡ opening ++ (joined toy (codes "x") (codes "x" ∷ []) ++ codes "\n]\n}\n")
unfolding contains text_eq
merge-joined_example =
    merge-joined toy always always (λ name. refl) names files (codes "x") (codes "x" ∷ []) refl

merge_no_events_example :
    (merge toy always always (codes "c" ∷ []) files).1 ≡ codes "{\n\"traceEvents\": \n]\n}\n"
unfolding text_eq
merge_no_events_example =
    merge_no_events toy always always (λ name. refl) (codes "c" ∷ []) files refl

merge-tidied_example : (merge toy always always names files).0 (codes "b") ≡ codes "E\n]\n}\n"
unfolding contains text_eq
merge-tidied_example = merge-tidied toy always always (λ name. refl) names files (codes "b")

abbrev args : ViewArgs
args = record {
  trace = codes "b";
  config = none;
  shaderdump = none;
  metrics = some (codes "m");
  numtopstalls = codes "10";
  demangler = none;
}

abbrev disk : Files
disk = record { exists = always; rows = λ name. codes "Kernel, IP[Address]" ∷ [] }

view_failed_example : (view toy never always disk args files).0 (codes "b") ≡ codes "E"
unfolding view is_stall_file validate_trace read_trace contains text_eq
view_failed_example = view_failed toy never always (λ name. refl) disk args files (codes "b") refl

-- A readable trace and stall metrics: the options hand over the number of stalls.
view_stalls :
    (view toy always always disk args files).1
    ≡ shown (some (codes "-n" ∷ codes "10" ∷ codes "-q" ∷ codes "m" ∷ []))
unfolding view is_stall_file has_https validate_trace read_trace close_tags contains text_eq
view_stalls = refl
