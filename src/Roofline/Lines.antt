-- ===== src/Roofline/Lines.antt =====
-- `file_to_json` and `file_to_json_old` of `tools/unitrace/scripts/roofline/roofline_libs.py`: the lines of
-- a profile that are handed to the reader of tables. A regular expression without special characters is
-- found where `in` finds it.
pub mod Same
use pti_gpu_itt_only.Base.{Bool, true, false, ◌&&◌, ◌||◌, not, List, [], ◌∷◌, ◌++◌, if◌then◌else◌}
use pti_gpu_itt_only.Text.{Text, codes, contains, strip, text_eq}

-- `text in texts`
unfoldable pub mem_text : Text → List Text → Bool
mem_text text [] = false
mem_text text (other ∷ texts) = text_eq other text || mem_text text texts

-- `sep.join( texts )`
unfoldable pub join : Text → List Text → Text
join sep [] = []
join sep (text ∷ []) = text
join sep (text ∷ next ∷ texts) = text ++ sep ++ join sep (next ∷ texts)

-- The variables of the loop; a set is the list of what was put in, the latest first.
pub record Collected : Type 0 where
  pub results : List Text
  pub start_reading : Bool
  pub found_kernel : Bool
  pub unique_lines : List Text

-- A line is gathered, unless it was before; the old reader looks it up in the results.
unfoldable pub gather : Text → Collected → Collected
gather clean_line s = if mem_text clean_line s.unique_lines then s else record s {
  results = s.results ++ clean_line ∷ [];
  unique_lines = clean_line ∷ s.unique_lines;
}

unfoldable pub gather_old : Text → Collected → Collected
gather_old clean_line s =
    if mem_text clean_line s.results then s else record s { results = s.results ++ clean_line ∷ [] }

abbrev pub note_start : Text → Collected → Collected
note_start line s = record s {
  start_reading = s.start_reading || contains line (codes "Metrics ==");
}

-- A line of the file: the marker, then the header, then the rows. `gather` is the reader's way.
unfoldable pub read_line : (Text → Collected → Collected) → Collected → Text → Collected
read_line gather s line =
    let started = note_start line s in
    let with_header =
      if started.start_reading && (not started.found_kernel && contains line (codes "Kernel,"))
      then gather (strip line) (record started { found_kernel = true })
      else started in
    if with_header.start_reading && (with_header.found_kernel && contains line (codes "SIMD"))
    then gather (strip line) with_header
    else with_header

unfoldable pub read_lines : (Text → Collected → Collected) → Collected → List Text → Collected
read_lines gather s [] = s
read_lines gather s (line ∷ lines) = read_lines gather (read_line gather s line) lines

abbrev pub nothing_read : Collected
nothing_read = record {
  results = [];
  start_reading = false;
  found_kernel = false;
  unique_lines = [];
}

-- `data_string`, which the reader of tables is given.
unfoldable pub file_to_json : List Text → Text
file_to_json lines = join (codes "\n") (read_lines gather nothing_read lines).results

unfoldable pub file_to_json_old : List Text → Text
file_to_json_old lines = join (codes "\n") (read_lines gather_old nothing_read lines).results
