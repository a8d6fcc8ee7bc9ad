-- ===== src/Asm.antt =====
-- Instruction addresses in assembly files: `main` of
-- `tools/unitrace/scripts/metrics/addrasm.py`, which writes them in, and the part of `AnalyzeStalls`
-- in `tools/unitrace/scripts/metrics/analyzeperfmetrics.py` that picks the file of a kernel, checks
-- that its addresses are there, and adds them if not. A file is its rows, each with its line break.
pub mod Hex
pub mod Marked
pub mod Choice
pub mod Demangler
mod Tests
use pti_gpu_itt_only.Base.{
  ℕ, zero, suc, ◌+◌, ◌*◌, ◌/◌, ◌%◌, ◌-◌, Bool, true, false, not, ◌&&◌, ◌||◌, List, [], ◌∷◌, ◌++◌,
  Option, none, some, if◌then◌else◌, length, ◌==◌, ltb,
}
use pti_gpu_itt_only.Text.{Text, codes, contains, starts_with, text_eq}

-- A hexadecimal digit in upper case.
unfoldable pub hex_digit : ℕ → ℕ
hex_digit d = if ltb d 10 then b'0' + d else b'A' + (d - 10)

-- The digits of a number below 16 to the power of the first argument, with no leading zeros.
unfoldable pub hex_digits : ℕ → ℕ → Text
hex_digits zero n = []
hex_digits (suc fuel) n =
    let rest = hex_digits fuel (n / 16) in if n == 0 then [] else rest ++ (hex_digit (n % 16) ∷ [])

unfoldable pub zeros : ℕ → Text
zeros zero = []
zeros (suc n) = b'0' ∷ zeros n

-- `'{:08X}'.format(ip)`
unfoldable pub format_08X : ℕ → Text
format_08X ip = let digits = hex_digits (ip + 1) ip in zeros (8 - length digits) ++ digits

-- `(row.startswith("//") == False) and ("//" in row)`
unfoldable pub is_instruction : Text → Bool
is_instruction row = not (starts_with row (codes "//")) && contains row (codes "//")

-- How far the address moves: 8 bytes for a compacted instruction, 16 for another.
unfoldable pub size_of : Text → ℕ
size_of row = if contains row (codes "Compacted") then 0x8 else 0x10

-- `"/* [" + str('{:08X}'.format(ip)) + "] */ "`
unfoldable pub mark : ℕ → Text
mark ip = codes "/* [" ++ (format_08X ip ++ codes "] */ ")

-- The loop of `addrasm.py`, and that of `AnalyzeStalls` that writes the file `.ip`.
unfoldable pub add_addresses : ℕ → List Text → List Text
add_addresses ip [] = []
add_addresses ip (row ∷ rows) =
    let marked = mark ip ++ row in
    let here = add_addresses (ip + size_of row) rows in
    let there = add_addresses ip rows in if is_instruction row then marked ∷ here else row ∷ there

-- The loop of `AnalyzeStalls` that looks for an instruction without its address.
unfoldable pub is_addressed : ℕ → List Text → Bool
is_addressed ip [] = true
is_addressed ip (row ∷ rows) =
    let here = is_addressed (ip + size_of row) rows in
    let there = is_addressed ip rows in
    if is_instruction row then starts_with row (mark ip) && here else there

-- The rows that the analysis reads: the file itself, or its copy with addresses.
unfoldable pub addressed_rows : List Text → List Text
addressed_rows rows = if is_addressed 0 rows then rows else add_addresses 0 rows

-- The place of the first row that carries this address, as both searches for a stalled
-- instruction find it.
unfoldable pub find_stalled : ℕ → List Text → Option ℕ
find_stalled pc [] = none
find_stalled pc (row ∷ rows) =
    let later = find_stalled pc rows in
    if is_instruction row && starts_with row (mark pc)
    then some 0
    else elim later [ none ↦ none | some i ↦ some (i + 1) ]
