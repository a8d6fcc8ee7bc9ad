-- ===== src/Trace/View.antt =====
-- `main` of `tools/unitrace/scripts/uniview.py`: the arguments are checked, the trace file is
-- repaired, and the metric viewer is started with options made from the arguments. Showing the
-- trace in a browser (`LoadTrace`) changes no file. An argument left out is `none`.
pub mod Laws
use pti_gpu_itt_only.Base.{
  Bool, true, false, not, ◌&&◌, ◌||◌, List, [], ◌∷◌, ◌++◌, Option, none, some, if◌then◌else◌,
  length, ◌==◌,
}
use pti_gpu_itt_only.Text.{Text, codes, contains}
use pti_gpu_itt_only.Trace.{Json, Store, update, read_trace}

-- `numtopstalls` is the text of the number.
pub record ViewArgs : Type 0 where
  pub trace : Text
  pub config : Option Text
  pub shaderdump : Option Text
  pub metrics : Option Text
  pub numtopstalls : Text
  pub demangler : Option Text

-- The files that exist, and the lines of one.
pub record Files : Type 0 where
  pub exists : Text → Bool
  pub rows : Text → List Text

-- The loop that tells time-based metrics from stall sampling by the header.
unfoldable pub is_stall_file : List Text → Bool
is_stall_file [] = true
is_stall_file (row ∷ rows) = elim (contains row (codes "GlobalInstanceId")) [
  | true ↦ false
  | false ↦ elim (contains row (codes "IP[Address]")) [ true ↦ true | false ↦ is_stall_file rows ]
]

abbrev pub is_given : Option Text → Bool
is_given none = false
is_given (some _) = true

abbrev pub is_missing : Files → Option Text → Bool
is_missing fs none = false
is_missing fs (some path) = not (fs.exists path)

-- The checks before the trace file is read: `none` is `return 1`, a Boolean is `eustall`.
unfoldable pub check_args : Files → ViewArgs → Option Bool
check_args fs args = if not (fs.exists args.trace) then none else elim args.metrics [
  | none ↦ if is_given args.config || is_given args.shaderdump then none else some true
  | some metrics ↦
      if not (fs.exists metrics)
      then none
      else let eustall = is_stall_file (fs.rows metrics) in
        if not eustall && (not (is_given args.config) || is_missing fs args.config)
        then none
        else if is_missing fs args.shaderdump
        then none
        else some eustall
]

abbrev pub flagged : Text → Option Text → List Text
flagged flag none = []
flagged flag (some value) = flag ∷ value ∷ []

-- The options of the metric viewer; `https` tells whether the trace links to an https server.
unfoldable pub viewer_options : ViewArgs → Bool → Bool → Text → List Text
viewer_options args eustall https metrics =
    (if eustall
      then flagged (codes "-s") args.shaderdump
        ++ (flagged (codes "-g") args.demangler ++ (codes "-n" ∷ args.numtopstalls ∷ []))
      else flagged (codes "-f") args.config)
    ++ ((if https then codes "-p" else codes "-q") ∷ metrics ∷ [])

unfoldable pub has_https : List Text → Bool
has_https [] = false
has_https (row ∷ rows) = contains row (codes "https://") || has_https rows

-- `return 1`, or the options that the viewer is started with, if there are metrics to view.
pub data ViewResult : Type 0 where
  failed : ViewResult
  shown : Option (List Text) → ViewResult

module _ (J : Json) (can_append can_truncate : Text → Bool) where
  -- The trace file's contents afterwards, and whether it is valid.
  unfoldable pub validate_trace : Text → Text → Text × Bool
  validate_trace name text =
      if length text == 0
      then (text, false)
      else let (text', data_) = read_trace J (can_append name) (can_truncate name) text in
        (text', elim data_ [ none ↦ false | some _ ↦ true ])

  unfoldable pub view : Files → ViewArgs → Store → Store × ViewResult
  unfolding check_args viewer_options
  view fs args store = elim (check_args fs args) [
    | none ↦ (store, failed)
    | some eustall ↦
        let (text, valid) = validate_trace args.trace (store args.trace) in
        let store' = update store args.trace text in
        if valid
        then (
          store',
          shown (elim args.metrics [
            | none ↦ none
            | some metrics ↦
                some (viewer_options args eustall (has_https (fs.rows args.trace)) metrics)
          ]),
        )
        else (store', failed)
  ]
