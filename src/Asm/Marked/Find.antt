-- ===== src/Asm/Marked/Find.antt =====
-- Finding a stalled instruction by its address.
use pti_gpu_itt_only.Base.{
  ℕ, zero, suc, ◌+◌, ◌<◌, ◌≡◌, ◌∙◌, refl, ap, arith, true, false, List, [], ◌∷◌, ◌++◌, Option, none,
  some, if◌then◌else◌, get_elem?, take, ◌==◌, inl, inr, Bool-cases,
}
use pti_gpu_itt_only.Text.{Text, starts_with}
use pti_gpu_itt_only.Asm.{
  is_instruction, size_of, mark, add_addresses, is_addressed, addressed_rows, find_stalled,
}
use pti_gpu_itt_only.Asm.Marked.{starts_with-mark, is_addressed-add_addresses_from}

-- The bytes that the instructions among the rows take.
abbrev pub offset : List Text → ℕ
offset [] = 0
offset (row ∷ rows) = (if is_instruction row then size_of row else 0) + offset rows

starts_with-split : (s p : Text) → starts_with s p ≡ true → (rest : Text) × (s ≡ p ++ rest)
unfolding starts_with
starts_with-split s [] h = (s, refl)
starts_with-split [] (c ∷ p) h = absurd (ground arith)
starts_with-split (d ∷ s) (c ∷ p) h =
    let tail = starts_with-split s p (ground arith) in (tail.0, ground (arith, tail.1))

size_of_pos : (row : Text) → 0 < size_of row
unfolding size_of
size_of_pos row = ground arith

-- A row that carries one address carries no other.
carried :
    (ip pc : ℕ) (row : Text)
    → starts_with row (mark ip) ≡ true
    → starts_with row (mark pc) ≡ (ip == pc)
carried ip pc row h =
    let (rest, e) = starts_with-split row (mark ip) h in rw e (starts_with-mark ip pc rest)

later_none :
    (i : ℕ) {o : Option ℕ}
    → o ≡ some i
    → (elim o [ none ↦ none | some j ↦ some (j + 1) ]) ≡ some (suc i)
later_none i h = rw h (ap some (omega arith))

offset_instruction :
    (r : Text) (rows : List Text)
    → is_instruction r ≡ true
    → offset (r ∷ rows) ≡ size_of r + offset rows
offset_instruction r rows h = rw h

offset_other :
    (r : Text) (rows : List Text) → is_instruction r ≡ false → offset (r ∷ rows) ≡ offset rows
offset_other r rows h = rw h (omega arith)

find_stalled-at :
    (rows : List Text) (ip pc i : ℕ) (row : Text)
    → is_addressed ip rows ≡ true
    → get_elem? rows i ≡ some row
    → is_instruction row ≡ true
    → pc ≡ ip + offset (take i rows)
    → find_stalled pc rows ≡ some i
unfolding is_addressed find_stalled
find_stalled-at [] ip pc i row a g h e = absurd (ground (arith, g))
find_stalled-at (r ∷ rows) ip pc zero row a g h e =
    let same : r ≡ row = cc g in
    let there : is_instruction r ≡ true = rw same h in
    let at_ip : starts_with r (mark ip) ≡ true = ground arith in
    let here : (ip == pc) ≡ true = ground arith in rw (there, carried ip pc r at_ip, here)
find_stalled-at (r ∷ rows) ip pc (suc i) row a g h e = elim (Bool-cases (is_instruction r)) [
  | inl there ↦
      let at_ip : starts_with r (mark ip) ≡ true = ground arith in
      let o = offset_instruction r (take i rows) there in
      let not_here : (ip == pc) ≡ false = ground (arith, size_of_pos r) in
      rw (there, carried ip pc r at_ip, not_here)
        (later_none i
          (find_stalled-at rows (ip + size_of r) pc i row (ground arith) g h (omega arith)))
  | inr other ↦
      let o = offset_other r (take i rows) other in
      rw other (later_none i (find_stalled-at rows ip pc i row (ground arith) g h (omega arith)))
]

-- The rows that the analysis reads carry their addresses, whether the file had them or not.
pub addressed_rows-is_addressed : (rows : List Text) → is_addressed 0 (addressed_rows rows) ≡ true
unfolding addressed_rows
addressed_rows-is_addressed rows = elim (Bool-cases (is_addressed 0 rows)) [
  | inl h ↦ rw h h
  | inr h ↦ rw h (is_addressed-add_addresses_from 0 rows)
]

-- In the rows that the analysis reads, the search for an address finds the instruction before
-- which the other instructions take that many bytes: 8 for a compacted one, 16 for another.
pub find_stalled-offset :
    (rows : List Text) (i : ℕ) (row : Text)
    → get_elem? (addressed_rows rows) i ≡ some row
    → is_instruction row ≡ true
    → find_stalled (offset (take i (addressed_rows rows))) (addressed_rows rows) ≡ some i
find_stalled-offset rows i row g h =
    find_stalled-at (addressed_rows rows) 0 _ i row (addressed_rows-is_addressed rows) g h
      (omega arith)

-- Row `i` of the copy: with the address `pc` if it is an instruction.
abbrev copied : ℕ → Option Text → Option Text
copied pc none = none
copied pc (some row) = some (if is_instruction row then mark pc ++ row else row)

get_elem?-add_addresses_at :
    (rows : List Text) (ip pc i : ℕ)
    → pc ≡ ip + offset (take i rows)
    → get_elem? (add_addresses ip rows) i ≡ copied pc (get_elem? rows i)
unfolding add_addresses
get_elem?-add_addresses_at [] ip pc i e = refl
get_elem?-add_addresses_at (r ∷ rows) ip pc zero e =
    let here : pc ≡ ip = omega arith in rw here (ground arith)
get_elem?-add_addresses_at (r ∷ rows) ip pc (suc i) e = elim (Bool-cases (is_instruction r)) [
  | inl there ↦
      let o = offset_instruction r (take i rows) there in
      rw there (get_elem?-add_addresses_at rows (ip + size_of r) pc i (omega arith))
  | inr other ↦
      let o = offset_other r (take i rows) other in
      rw other (get_elem?-add_addresses_at rows ip pc i (omega arith))
]

-- The copy has the same rows, and before each instruction the number of bytes that the instructions
-- above it take, as its address.
pub get_elem?-add_addresses :
    (rows : List Text) (i : ℕ)
    → get_elem? (add_addresses 0 rows) i ≡ (elim (get_elem? rows i) [
      | none ↦ none
      | some row ↦ some (if is_instruction row then mark (offset (take i rows)) ++ row else row)
    ])
get_elem?-add_addresses rows i =
    get_elem?-add_addresses_at rows 0 (offset (take i rows)) i (omega arith) ∙ ground arith
