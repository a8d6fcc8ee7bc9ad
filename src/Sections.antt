-- ===== src/Sections.antt =====
-- The scans of `tools/unitrace/scripts/metrics/analyzeperfmetrics.py` for the part of a metric
-- file that belongs to a device: that of `main` and of `List` for one device, and that of
-- `PerfMetricsHTTPServer` for all of them.
pub mod Device
pub mod Server
mod Tests
use pti_gpu_itt_only.Base.{
  ℕ, ◌+◌, Bool, true, false, ◌&&◌, ◌||◌, List, [], ◌∷◌, ◌++◌, Option, none, some, if◌then◌else◌,
}
use pti_gpu_itt_only.Text.{Text, codes, contains, starts_with}

-- `("=== Device" in row) and ("Metrics ===" in row)`
unfoldable pub is_banner : Text → Bool
unfolding contains
is_banner row = contains row (codes "=== Device") && contains row (codes "Metrics ===")

-- `"OtherStall[Events]" in row`
unfoldable pub is_stall_header : Text → Bool
unfolding contains
is_stall_header row = contains row (codes "OtherStall[Events]")

-- `("OtherStall[Events]" in row) or (row.startswith("Kernel,"))`
unfoldable pub is_header : Text → Bool
unfolding is_stall_header starts_with
is_header row = is_stall_header row || starts_with row (codes "Kernel,")

-- The variables of the loop in `main`.
pub record Scan : Type 0 where
  pub header : ℕ
  pub linenum : ℕ
  pub counting : Bool
  pub devicefound : Bool
  pub eustall : Bool

-- `none` is the `break` at the next device's banner.
unfoldable pub on_banner : Text → Text → Scan → Option Scan
on_banner device_banner row s =
    if is_banner row
    then (if contains row device_banner
        then some (record s { counting = true; devicefound = true })
        else if s.devicefound
        then none
        else some s)
    else some s

unfoldable pub on_header : Text → Scan → Scan
on_header row s =
    if s.counting && is_header row
    then record s {
      header = s.linenum;
      counting = false;
      eustall = if is_stall_header row then true else s.eustall;
    }
    else s

abbrev pub tick : Scan → Scan
tick s = record s { linenum = s.linenum + 1 }

unfoldable pub scan_rows : Text → List Text → Scan → Scan
unfolding on_banner on_header
scan_rows device_banner [] s = s
scan_rows device_banner (row ∷ rows) s = elim (on_banner device_banner row s) [
  | none ↦ s
  | some t ↦ scan_rows device_banner rows (tick (on_header row t))
]

abbrev pub start : Scan
start = record { header = 0; linenum = 0; counting = false; devicefound = false; eustall = false }

-- The part of the file for one device. `last` of the source is the field `linenum`.
unfoldable pub find_section : Text → List Text → Scan
unfolding scan_rows
find_section device_banner rows = scan_rows device_banner rows start
