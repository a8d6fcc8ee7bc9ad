-- ===== src/Roofline/Lines/Same.antt =====
-- The set of lines that `file_to_json` keeps beside its results.
use pti_gpu_itt_only.Base.{
  ◌≡◌, ◌∙◌, refl, sym, ap, arith, Bool, true, false, ◌&&◌, ◌||◌, not, List, [], ◌∷◌, ◌++◌,
  if◌then◌else◌, Bool-cases, inl, inr,
}
use pti_gpu_itt_only.Text.{Text, codes, contains, strip}
use pti_gpu_itt_only.Roofline.Lines.{
  mem_text, join, Collected, gather, gather_old, note_start, read_line, read_lines, nothing_read,
  file_to_json, file_to_json_old,
}

mem_text-append :
    (t : Text) (a b : List Text) → mem_text t (a ++ b) ≡ (mem_text t a || mem_text t b)
unfolding mem_text
mem_text-append t [] b = refl
mem_text-append t (x ∷ a) b = ground (arith, mem_text-append t a b)

-- The two readers' variables agree, and the set has the lines of the results.
record Alike (s old : Collected) : Type 0 where
  same_results : s.results ≡ old.results
  same_start : s.start_reading ≡ old.start_reading
  same_found : s.found_kernel ≡ old.found_kernel
  is_set : (t : Text) → mem_text t s.unique_lines ≡ mem_text t s.results

gather-Alike :
    (line : Text) (s old : Collected) → Alike s old → Alike (gather line s) (gather_old line old)
unfolding gather gather_old mem_text
gather-Alike line s old h = elim (Bool-cases (mem_text line s.unique_lines)) [
  | inl e ↦
      let e' : mem_text line old.results ≡ true =
        ap (mem_text line) (sym h.same_results) ∙ sym (h.is_set line) ∙ e in
      rw (e, gather) (rw (e', gather_old) h)
  | inr e ↦
      let e' : mem_text line old.results ≡ false =
        ap (mem_text line) (sym h.same_results) ∙ sym (h.is_set line) ∙ e in
      rw (e, gather)
        (rw (e', gather_old)
          (record {
            same_results = ap (λ r. r ++ line ∷ []) h.same_results;
            same_start = h.same_start;
            same_found = h.same_found;
            is_set = λ t. put t (h.is_set t);
          }))
]
  where
    put :
        (t : Text)
        → mem_text t s.unique_lines ≡ mem_text t s.results
        → mem_text t (line ∷ s.unique_lines) ≡ mem_text t (s.results ++ line ∷ [])
    put t k = ground (arith, k, mem_text-append t s.results (line ∷ []))

if-Alike :
    (b b' : Bool) (x y x' y' : Collected)
    → b ≡ b'
    → Alike x x'
    → Alike y y'
    → Alike (if b then x else y) (if b' then x' else y')
if-Alike true true x y x' y' e h k = h
if-Alike false false x y x' y' e h k = k
if-Alike true false x y x' y' e h k = absurd (ground arith)
if-Alike false true x y x' y' e h k = absurd (ground arith)

note_start-Alike :
    (line : Text) (s old : Collected)
    → Alike s old
    → Alike (note_start line s) (note_start line old)
note_start-Alike line s old h = record {
  same_results = h.same_results;
  same_start = ap (λ b. b || contains line (codes "Metrics ==")) h.same_start;
  same_found = h.same_found;
  is_set = h.is_set;
}

found-Alike :
    (s old : Collected)
    → Alike s old
    → Alike (record s { found_kernel = true }) (record old { found_kernel = true })
found-Alike s old h = record {
  same_results = h.same_results;
  same_start = h.same_start;
  same_found = refl;
  is_set = h.is_set;
}

-- The header's part of a line.
abbrev with_header : (Text → Collected → Collected) → Text → Collected → Collected
with_header gather line s =
    if s.start_reading && (not s.found_kernel && contains line (codes "Kernel,"))
    then gather (strip line) (record s { found_kernel = true })
    else s

abbrev with_row : (Text → Collected → Collected) → Text → Collected → Collected
with_row gather line s =
    if s.start_reading && (s.found_kernel && contains line (codes "SIMD"))
    then gather (strip line) s
    else s

with_header-Alike :
    (line : Text) (s old : Collected)
    → Alike s old
    → Alike (with_header gather line s) (with_header gather_old line old)
with_header-Alike line s old h =
    if-Alike _ _ _ _ _ _
      (ap (λ b. b && (not s.found_kernel && contains line (codes "Kernel,"))) h.same_start
        ∙ ap (λ b. old.start_reading && (not b && contains line (codes "Kernel,"))) h.same_found)
      (gather-Alike (strip line) (record s { found_kernel = true })
        (record old { found_kernel = true }) (found-Alike s old h))
      h

with_row-Alike :
    (line : Text) (s old : Collected)
    → Alike s old
    → Alike (with_row gather line s) (with_row gather_old line old)
with_row-Alike line s old h =
    if-Alike _ _ _ _ _ _
      (ap (λ b. b && (s.found_kernel && contains line (codes "SIMD"))) h.same_start
        ∙ ap (λ b. old.start_reading && (b && contains line (codes "SIMD"))) h.same_found)
      (gather-Alike (strip line) s old h) h

read_lines-Alike :
    (lines : List Text) (s old : Collected)
    → Alike s old
    → Alike (read_lines gather s lines) (read_lines gather_old old lines)
unfolding read_lines read_line
read_lines-Alike [] s old h = h
read_lines-Alike (line ∷ lines) s old h =
    read_lines-Alike lines (read_line gather s line) (read_line gather_old old line) (
      with_row-Alike line (with_header gather line (note_start line s))
        (with_header gather_old line (note_start line old))
        (with_header-Alike line (note_start line s) (note_start line old)
          (note_start-Alike line s old h)))

-- Both readers hand the same text to the reader of tables, whatever the file.
pub file_to_json-file_to_json_old :
    (lines : List Text) → file_to_json lines ≡ file_to_json_old lines
unfolding file_to_json file_to_json_old
file_to_json-file_to_json_old lines =
    ap (join (codes "\n"))
      (read_lines-Alike lines nothing_read nothing_read (record {
        same_results = refl;
        same_start = refl;
        same_found = refl;
        is_set = λ t. refl;
      })).same_results
