-- ===== src/Trace/View/Laws.antt =====
-- The arguments of the viewer, and the trace file after a run of it.
use pti_gpu_itt_only.Base.{
  ◌⊎◌, inl, inr, Option-cases, refl, Bool, true, false, ◌≡◌, ◌≢◌, arith, none, some, if◌then◌else◌,
  length, ◌==◌,
}
use pti_gpu_itt_only.Text.{text_eq, text_eq_iff, Text}
use pti_gpu_itt_only.Trace.{Json, Store}
use pti_gpu_itt_only.Trace.Repair.{data_of, kept, read_trace_lem}
use pti_gpu_itt_only.Trace.View.{
  view, failed, ViewArgs, Files, check_args, is_stall_file, validate_trace,
}

-- What it takes for the arguments to be accepted: without metrics neither a config file nor a
-- shader dump is given; with metrics the file is there, a config file is given and there unless the
-- metrics are of stall sampling, and a shader dump that is given is there.
pub record Accepts (fs : Files) (args : ViewArgs) (eustall : Bool) : Type 0 where
  pub trace_there : fs.exists args.trace ≡ true
  pub extras :
      args.metrics ≡ none → (args.config ≡ none) × (args.shaderdump ≡ none) × (eustall ≡ true)
  pub kind :
      (metrics : Text) → args.metrics ≡ some metrics → eustall ≡ is_stall_file (fs.rows metrics)
  pub metrics_there : (metrics : Text) → args.metrics ≡ some metrics → fs.exists metrics ≡ true
  pub config_given :
      (metrics : Text) → args.metrics ≡ some metrics → eustall ≡ false → args.config ≢ none
  pub config_there :
      (metrics config : Text)
      → args.metrics ≡ some metrics
      → eustall ≡ false
      → args.config ≡ some config
      → fs.exists config ≡ true
  pub dump_there :
      (metrics dump : Text)
      → args.metrics ≡ some metrics
      → args.shaderdump ≡ some dump
      → fs.exists dump ≡ true

-- Arguments that pass the checks are such that, without metrics, neither a config file nor a shader
-- dump is given; that the trace is there, and the metrics, if given; that a config file is given and
-- there if the metrics are not of stall sampling; and that a shader dump given with metrics is there.
-- What the checks give is whether the metrics are of stall sampling, and true without metrics.
pub check_args-Accepts :
    (fs : Files) (args : ViewArgs) (eustall : Bool)
    → check_args fs args ≡ some eustall
    → Accepts fs args eustall
unfolding check_args
check_args-Accepts fs args eustall h = record {
  trace_there = ground arith;
  extras = λ m. ground arith;
  kind = λ metrics m. ground arith;
  metrics_there = λ metrics m. ground arith;
  config_given = λ metrics m e. ground arith;
  config_there = λ metrics config m e c. ground arith;
  dump_there = λ metrics dump m d. ground arith;
}

module _ (J : Json) (can_append can_truncate : Text → Bool)
    (truncates : (name : Text) → can_truncate name ≡ true) where
  validate_trace_lem :
      (name text : Text)
      → validate_trace J can_append can_truncate name text ≡ (
          if length text == 0 then (text, false) else (
            kept J (can_append name) text,
            elim (data_of J (can_append name) text) [ none ↦ false | some _ ↦ true ],
          ))
  unfolding validate_trace
  validate_trace_lem name text = rw (truncates name) (rw (read_trace_lem J (can_append name) text))

  text_eq_refl : (t : Text) → text_eq t t ≡ true
  text_eq_refl t = (text_eq_iff t t).1 refl

  kept-unreadable :
      (can_append : Bool) (text : Text)
      → data_of J can_append text ≡ none
      → kept J can_append text ≡ text
  kept-unreadable can_append text h = ground arith

  validate_trace-false :
      (name text : Text)
      → (validate_trace J can_append can_truncate name text).1 ≡ false
      → (validate_trace J can_append can_truncate name text).0 ≡ text
  validate_trace-false name text =
      rw (validate_trace_lem name text)
        (go (length text == 0) (Option-cases (data_of J (can_append name) text)))
    where
      go :
          (empty : Bool)
          → (data_of J (can_append name) text ≡ none)
            ⊎ ((v : J.Value) × (data_of J (can_append name) text ≡ some v))
          → (if◌then◌else◌ {A = Text × Bool} empty
              (text, false)
              (
                kept J (can_append name) text,
                elim (data_of J (can_append name) text) [ none ↦ false | some _ ↦ true ],
              )).1
            ≡ false
          → (if◌then◌else◌ {A = Text × Bool} empty
              (text, false)
              (
                kept J (can_append name) text,
                elim (data_of J (can_append name) text) [ none ↦ false | some _ ↦ true ],
              )).0
            ≡ text
      go true c h = refl
      go false (inl e) h = kept-unreadable (can_append name) text e
      go false (inr (v, e)) h = ground arith

  -- Where truncation works, a run that exits with status 1 leaves every file as it was.
  pub view_failed :
      (fs : Files) (args : ViewArgs) (store : Store) (other : Text)
      → (view J can_append can_truncate fs args store).1 ≡ failed
      → (view J can_append can_truncate fs args store).0 other ≡ store other
  unfolding view
  view_failed fs args store other h =
      ground
        (arith, text_eq_iff other args.trace, validate_trace-false args.trace (store args.trace))
