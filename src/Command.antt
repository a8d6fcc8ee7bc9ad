-- ===== src/Command.antt =====
-- `main` of `tools/unitrace/scripts/metrics/analyzeperfmetrics.py`, lines 1490 to 1570: what the
-- command does with its arguments and the metrics file.
pub mod Laws
mod Tests
use pti_gpu_itt_only.Base.{
  ℕ, Bool, true, false, not, ◌&&◌, ◌||◌, List, [], ◌∷◌, ◌++◌, Option, none, some, if◌then◌else◌,
  length, ◌==◌,
}
use pti_gpu_itt_only.Text.{Text, codes}
use pti_gpu_itt_only.Sections.{Scan, find_section}
use pti_gpu_itt_only.Sections.Server.{Span, server_sections}

-- The arguments that `main` tests, with the input file's rows, if it is there, and the device's
-- number in digits.
pub record MainArgs : Type 0 where
  pub input : Option (List Text)
  pub list : Bool
  pub metrics : Option (List Text)
  pub ylabel : Option (List Text)
  pub http : Bool
  pub https : Bool
  pub output : Option Text
  pub device : Text

-- What the command does: it stops with a message, or goes on in one of its parts.
pub data Action : Type 0 where
  no_input : Action
  empty_input : Action
  list_metrics : List Text → Action
  labels_differ : Action
  http_and_https : Action
  serve : List Span → Action
  no_output : Action
  no_device : Action
  no_metrics : Action
  no_ylabel : Action
  counts_differ : Action
  analyze_perf : ℕ → ℕ → List Text → List Text → Action
  analyze_stalls : ℕ → ℕ → Action

-- `metric_ylabel_match`
unfoldable pub metric_ylabel_match : Option (List Text) → Option (List Text) → Bool
metric_ylabel_match none none = true
metric_ylabel_match none (some labels) = false
metric_ylabel_match (some metrics) none = false
metric_ylabel_match (some metrics) (some labels) = length metrics == length labels

unfoldable pub device_banner : Text → Text
device_banner device = codes "=== Device #" ++ (device ++ codes " Metrics ===")

-- The tests behind the scan of a file of performance metrics.
unfoldable pub start_perf : MainArgs → Scan → Action
start_perf args s = elim args.metrics [
  | none ↦ no_metrics
  | some metrics ↦ elim args.ylabel [
    | none ↦ no_ylabel
    | some labels ↦
        if not (length metrics == length labels)
        then counts_differ
        else analyze_perf s.header s.linenum metrics labels
  ]
]

unfoldable pub after_scan : MainArgs → Scan → Action
after_scan args s =
    if not s.devicefound
    then no_device
    else if s.eustall
    then analyze_stalls s.header s.linenum
    else start_perf args s

unfoldable pub analyze_file : MainArgs → List Text → Action
analyze_file args rows = elim args.output [
  | none ↦ no_output
  | some output ↦ after_scan args (find_section (device_banner args.device) rows)
]

unfoldable pub read_file : MainArgs → List Text → Action
read_file args rows =
    if args.list
    then list_metrics rows
    else if not (metric_ylabel_match args.metrics args.ylabel)
    then labels_differ
    else if args.https && args.http
    then http_and_https
    else if args.https || args.http
    then serve (server_sections rows)
    else analyze_file args rows

unfoldable pub main : MainArgs → Action
main args = elim args.input [
  | none ↦ no_input
  | some [] ↦ empty_input
  | some (row ∷ rows) ↦ read_file args (row ∷ rows)
]
