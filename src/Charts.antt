-- ===== src/Charts.antt =====
-- The charts that `tools/unitrace/scripts/metrics/analyzeperfmetrics.py` draws, from the rows of one
-- device's section of the metrics file as the table reader gives them. Drawing is the plotting
-- library's work: a chart here is what is handed to it.
pub mod Paging
pub mod Stalls
pub mod Perf
mod Tests
use pti_gpu_itt_only.Base.{ℕ, Bool, List, Option, none, some, ltb, length, if◌then◌else◌}

-- `kind = 'line'` or `kind = 'bar'`
pub data Kind : Type 0 where
  line : Kind
  bar : Kind

-- A line needs two points.
unfoldable pub kind_of {ℓ} : {A : Type ℓ} → List A → Kind
kind_of rows = if ltb 1 (length rows) then line else bar

-- Where rows stop, if a stop is set, or else the end of the table.
abbrev pub or_end : Option ℕ → ℕ → ℕ
or_end none size = size
or_end (some stop) size = stop
