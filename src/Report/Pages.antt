-- ===== src/Report/Pages.antt =====
-- The rows that the lines of a report are wrapped into.
pub mod Groups
use pti_gpu_itt_only.Base.{
  ℕ, zero, suc, ◌≤◌, ◌<◌, Bool, true, false, List, [], ◌∷◌, ◌++◌, ◌≡◌, ◌∙◌, refl, sym, ap, arith,
  if◌then◌else◌, length, take, drop, concat, All, ltb, append-nil, length-take, length-drop,
  take-append-drop, Bool-cases, inl, inr,
}
use pti_gpu_itt_only.Text.{Text}
use pti_gpu_itt_only.Report.{
  page_size, line_width, Printer, put_row, put_line, non_empty, put_lines,
}

-- The rows of one line: pieces of 160 characters, and what is left.
unfoldable pub wrap : ℕ → Text → List Text
wrap zero line = []
wrap (suc fuel) line = elim (ltb line_width (length line)) [
  | true ↦ take line_width line ∷ wrap fuel (drop line_width line)
  | false ↦ if ltb 0 (length line) then line ∷ [] else []
]

abbrev pub wrap_line : Text → List Text
wrap_line line = wrap (length line) line

abbrev pub rows_of : List Text → List Text
rows_of [] = []
rows_of (line ∷ lines) = wrap_line (non_empty line) ++ rows_of lines

-- A row is neither empty nor wider than the page.
abbrev pub Fits : Text → Type 0
Fits row = (0 < length row) × (length row ≤ line_width)

wrap_wide :
    (fuel : ℕ) (line : Text)
    → ltb line_width (length line) ≡ true
    → wrap (suc fuel) line ≡ take line_width line ∷ wrap fuel (drop line_width line)
unfolding wrap
wrap_wide fuel line h = rw (h, wrap)

wrap_narrow :
    (fuel : ℕ) (line : Text)
    → ltb line_width (length line) ≡ false
    → wrap (suc fuel) line ≡ (if ltb 0 (length line) then line ∷ [] else [])
unfolding wrap
wrap_narrow fuel line h = rw (h, wrap)

lt-of-ltb : (a b : ℕ) → ltb a b ≡ true → a < b
lt-of-ltb a b h = ground arith

le-of-ltb : (a b : ℕ) → ltb a b ≡ false → b ≤ a
le-of-ltb a b h = ground arith

Fits-take : (line : Text) → ltb line_width (length line) ≡ true → Fits (take line_width line)
Fits-take line h =
    let lt = lt-of-ltb line_width (length line) h in
    (omega (arith, length-take line_width line), omega (arith, length-take line_width line))

ltb_pos : (n : ℕ) → ltb 0 (suc n) ≡ true
ltb_pos n = ground arith

Fits-rest :
    (line : Text)
    → ltb line_width (length line) ≡ false
    → All Fits (if ltb 0 (length line) then line ∷ [] else [])
Fits-rest [] h = tt
Fits-rest (c ∷ line) h =
    let le = le-of-ltb line_width (length (c ∷ line)) h in
    rw (ltb_pos (length line)) ((omega arith, le), tt)

wrap-Fits : (fuel : ℕ) (line : Text) → All Fits (wrap fuel line)
wrap-Fits zero line = unfold wrap in tt
wrap-Fits (suc fuel) line = elim (Bool-cases (ltb line_width (length line))) [
  | inl h ↦ rw (wrap_wide fuel line h) (Fits-take line h, wrap-Fits fuel (drop line_width line))
  | inr h ↦ rw (wrap_narrow fuel line h) (Fits-rest line h)
]

nil-of-length : (line : Text) → length line ≤ 0 → line ≡ []
nil-of-length [] h = refl
nil-of-length (c ∷ line) h = absurd (omega arith)

concat_rest : (line : Text) → concat (if ltb 0 (length line) then line ∷ [] else []) ≡ line
concat_rest [] = refl
concat_rest (c ∷ line) = rw (ltb_pos (length line)) (append-nil (c ∷ line))

-- Nothing of a line is lost or moved.
concat-wrap : (fuel : ℕ) (line : Text) → length line ≤ fuel → concat (wrap fuel line) ≡ line
concat-wrap zero line h = unfold wrap in sym (nil-of-length line h)
concat-wrap (suc fuel) line h = elim (Bool-cases (ltb line_width (length line))) [
  | inl e ↦ rw (wrap_wide fuel line e) (
      ap (λ rest. take line_width line ++ rest)
        (concat-wrap fuel (drop line_width line) (omega (arith, length-drop line_width line)))
      ∙ take-append-drop line_width line)
  | inr e ↦ rw (wrap_narrow fuel line e) (concat_rest line)
]

-- The rows printed one by one.
abbrev pub put_rows : List Text → Printer → Printer
put_rows [] s = s
put_rows (row ∷ rows) s = put_rows rows (put_row row s)

put_rows-append :
    (xs ys : List Text) (s : Printer) → put_rows (xs ++ ys) s ≡ put_rows ys (put_rows xs s)
put_rows-append [] ys s = refl
put_rows-append (x ∷ xs) ys s = put_rows-append xs ys (put_row x s)

put_rest :
    (b : Bool) (line : Text) (s : Printer)
    → (if b then put_row line s else s) ≡ put_rows (if b then line ∷ [] else []) s
put_rest true line s = refl
put_rest false line s = refl

put_line-wrap :
    (fuel : ℕ) (line : Text) (s : Printer) → put_line fuel line s ≡ put_rows (wrap fuel line) s
unfolding put_line wrap
put_line-wrap zero line s = refl
put_line-wrap (suc fuel) line s = elim (Bool-cases (ltb line_width (length line))) [
  | inl e ↦ rw (e, put_line, wrap) (put_line-wrap fuel _ _)
  | inr e ↦ rw (e, put_line, wrap) (put_rest (ltb 0 (length line)) line s)
]

put_lines-rows_of :
    (lines : List Text) (s : Printer) → put_lines lines s ≡ put_rows (rows_of lines) s
unfolding put_lines
put_lines-rows_of [] s = refl
put_lines-rows_of (line ∷ lines) s =
    rw (put_line-wrap (length (non_empty line)) (non_empty line) s) (
      put_lines-rows_of lines _
      ∙ sym (put_rows-append (wrap_line (non_empty line)) (rows_of lines) s))

-- The text of a page that shows these rows, one to a line of text.
abbrev pub render : List Text → Text
render [] = []
render (row ∷ rows) = row ++ (b'\n' ∷ render rows)

-- Groups of rows for the pages: every one but the last has 48, and the last has 1 to 48.
abbrev pub IsPaged : List (List Text) → Type 0
IsPaged [] = Unit
IsPaged (g ∷ []) = (0 < length g) × (length g ≤ page_size)
IsPaged (g ∷ h ∷ gs) = (length g ≡ page_size) × IsPaged (h ∷ gs)

wrap_line-rows :
    (line : Text)
    → (concat (wrap_line (non_empty line)) ≡ non_empty line) × All Fits (wrap_line (non_empty line))
wrap_line-rows line =
    let text = non_empty line in
    (concat-wrap (length text) text (omega arith), wrap-Fits (length text) text)

-- A line, or one line feed in place of an empty one, is put on the pages as rows that hold all its
-- characters in order, none of them empty or wider than 160 characters.
pub put_line-rows :
    (line : Text) (s : Printer)
    → (rows : List Text) × (put_line (length (non_empty line)) (non_empty line) s ≡ put_rows rows s)
      × (concat rows ≡ non_empty line)
      × All Fits rows
put_line-rows line s =
    let (whole, fit) = wrap_line-rows line in
    (
      wrap_line (non_empty line),
      put_line-wrap (length (non_empty line)) (non_empty line) s,
      whole,
      fit,
    )
