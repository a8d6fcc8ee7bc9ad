-- ===== src/Asm/Marked.antt =====
-- The addresses that are written into an assembly file, and the test that they are there.
pub mod Find
use pti_gpu_itt_only.Base.{
  ℕ, zero, suc, ◌+◌, ◌-◌, ◌≤◌, ◌<◌, ◌≡◌, ◌≢◌, ◌∙◌, refl, sym, ap, arith, Bool, true, false, not,
  ◌&&◌, ◌||◌, List, [], ◌∷◌, ◌++◌, Option, none, some, if◌then◌else◌, length, All, ◌==◌, ltb,
  append_assoc, inl, inr, Bool-cases,
}
use pti_gpu_itt_only.Text.{Text, codes, contains, starts_with}
use pti_gpu_itt_only.Asm.{
  format_08X, is_instruction, size_of, mark, add_addresses, is_addressed, addressed_rows,
  find_stalled,
}
use pti_gpu_itt_only.Asm.Hex.{IsHex, format_08X-IsHex, format_08X_inj}

pub starts_with-append : (p s : Text) → starts_with (p ++ s) p ≡ true
unfolding starts_with
starts_with-append [] s = refl
starts_with-append (c ∷ p) s = ground (arith, starts_with-append p s)

contains-append : (p s part : Text) → contains s part ≡ true → contains (p ++ s) part ≡ true
unfolding contains
contains-append [] s part h = h
contains-append (c ∷ p) s part h = ground (arith, contains-append p s part h)

-- What stands behind the digits of an address.
abbrev mark_end : Text → Text
mark_end row = codes "] */ " ++ row

mark_lem : (ip : ℕ) → mark ip ≡ codes "/* [" ++ (format_08X ip ++ codes "] */ ")
unfolding mark
mark_lem ip = refl

mark_row : (ip : ℕ) (row : Text) → mark ip ++ row ≡ codes "/* [" ++ (format_08X ip ++ mark_end row)
unfolding mark
mark_row ip row =
    append_assoc (codes "/* [") (format_08X ip ++ codes "] */ ") row
    ∙ ap (λ t. codes "/* [" ++ t) (append_assoc (format_08X ip) (codes "] */ ") row)

-- In digits and what stands behind them, the word is found where it is found in the row.
contains_behind_digits :
    (digits row : Text)
    → All IsHex digits
    → contains (digits ++ mark_end row) (codes "Compacted") ≡ contains row (codes "Compacted")
unfolding contains
contains_behind_digits [] row h = refl
contains_behind_digits (c ∷ []) row (h, hs) = ground arith
contains_behind_digits (c ∷ d ∷ digits) row (h, (h', hs)) =
    ground (arith, contains_behind_digits (d ∷ digits) row (h', hs))

opening :
    (t : Text) → contains (codes "/* [" ++ t) (codes "Compacted") ≡ contains t (codes "Compacted")
unfolding contains
opening t = refl

pub size_of-mark : (ip : ℕ) (row : Text) → size_of (mark ip ++ row) ≡ size_of row
unfolding size_of
size_of-mark ip row = rw (mark_row ip row) (
    ap (λ b. if b then 0x8 else 0x10)
      (opening (format_08X ip ++ mark_end row)
        ∙ contains_behind_digits (format_08X ip) row (format_08X-IsHex ip)))

starts_with_opening :
    (t p : Text) → starts_with (codes "/* [" ++ t) (codes "/* [" ++ p) ≡ starts_with t p
unfolding starts_with
starts_with_opening t p = refl

starts_with_comment : (t : Text) → starts_with (codes "/* [" ++ t) (codes "//") ≡ false
unfolding starts_with
starts_with_comment t = refl

-- A marked instruction is an instruction.
pub is_instruction-mark :
    (ip : ℕ) (row : Text) → is_instruction row ≡ true → is_instruction (mark ip ++ row) ≡ true
unfolding is_instruction
is_instruction-mark ip row h = ground (
  arith,
  contains-append (mark ip) row (codes "//"),
  mark_row ip row,
  starts_with_comment (format_08X ip ++ mark_end row),
)

-- Digits up to a bracket that are a prefix of other digits up to a bracket are those digits.
digits-prefix :
    (xs ys s t : Text)
    → All IsHex xs
    → All IsHex ys
    → starts_with (xs ++ (b']' ∷ s)) (ys ++ (b']' ∷ t)) ≡ true
    → xs ≡ ys
unfolding starts_with
digits-prefix [] [] s t hx hy h = refl
digits-prefix [] (y ∷ ys) s t hx (hy, hys) h = absurd (ground arith)
digits-prefix (x ∷ xs) [] s t (hx, hxs) hy h = absurd (ground arith)
digits-prefix (x ∷ xs) (y ∷ ys) s t (hx, hxs) (hy, hys) h =
    ground (arith, digits-prefix xs ys s t hxs hys)

-- A marked row carries the address that was written, and no other.
pub starts_with-mark :
    (ip pc : ℕ) (row : Text) → starts_with (mark ip ++ row) (mark pc) ≡ (ip == pc)
starts_with-mark ip pc row = elim (Bool-cases (ip == pc)) [
  | inl e ↦
      let same : ip ≡ pc = ground arith in rw same (starts_with-append (mark pc) row ∙ ground arith)
  | inr ne ↦ elim (Bool-cases (starts_with (mark ip ++ row) (mark pc))) [
    | inr h ↦ h ∙ sym ne
    | inl h ↦ let same = format_08X_inj ip pc (equal_digits h) in absurd (ground arith)
  ]
]
  where
    equal_digits : starts_with (mark ip ++ row) (mark pc) ≡ true → format_08X ip ≡ format_08X pc
    equal_digits h =
        digits-prefix (format_08X ip) (format_08X pc) (codes " */ " ++ row) (codes " */ ")
          (format_08X-IsHex ip) (format_08X-IsHex pc)
          (sym
              (starts_with_opening (format_08X ip ++ mark_end row) (format_08X pc ++ codes "] */ "))
            ∙ (rw (mark_row ip row, mark_lem pc) at h))

-- Every instruction of the rows that `add_addresses` writes carries the address expected there, so
-- that the check made on them succeeds.
pub is_addressed-add_addresses_from :
    (ip : ℕ) (rows : List Text) → is_addressed ip (add_addresses ip rows) ≡ true
unfolding is_addressed add_addresses
is_addressed-add_addresses_from ip [] = refl
is_addressed-add_addresses_from ip (row ∷ rows) = elim (Bool-cases (is_instruction row)) [
  | inl h ↦
      rw (h, is_instruction-mark ip row h, size_of-mark ip row, starts_with-append (mark ip) row)
        (is_addressed-add_addresses_from (ip + size_of row) rows)
  | inr h ↦ rw (h, h) (is_addressed-add_addresses_from ip rows)
]
