-- ===== src/Asm/Tests.antt =====
-- A small assembly file, and the theorems at it.
use pti_gpu_itt_only.Base.{
  List, [], ◌∷◌, ◌++◌, ◌≡◌, refl, true, Option, none, some, get_elem?, if◌then◌else◌,
}
use pti_gpu_itt_only.Text.{Text, codes, contains, starts_with, text_eq, is_space}
use pti_gpu_itt_only.Asm.{
  hex_digit, hex_digits, zeros, format_08X, is_instruction, size_of, mark, add_addresses,
  is_addressed, addressed_rows, find_stalled,
}
use pti_gpu_itt_only.Asm.Marked.Find.{
  addressed_rows-is_addressed, find_stalled-offset, get_elem?-add_addresses,
}
use pti_gpu_itt_only.Asm.Demangler.{new, first_line, from_cxxfilt, demangle, demangle_all}
use pti_gpu_itt_only.Asm.Demangler.Failed.{until_failure, demangle_all-until_failure}
use pti_gpu_itt_only.Asm.Choice.{
  asm_files, names_kernel, words_from, ends_with, choose_asm, pick_longest, pick_largest, text_lt,
}
use pti_gpu_itt_only.Asm.Choice.Latest.{IsLatest, choose_asm-IsLatest}

abbrev rows : List Text
rows =
    codes "//.kernel f\n"
    ∷ codes "mov (8) // Compacted\n"
    ∷ codes "// B001\n"
    ∷ codes "add (8) // r2\n"
    ∷ codes "send (8) // r3\n"
    ∷ []

written :
    add_addresses 0 rows
    ≡ codes "//.kernel f\n"
      ∷ codes "/* [00000000] */ mov (8) // Compacted\n"
      ∷ codes "// B001\n"
      ∷ codes "/* [00000008] */ add (8) // r2\n"
      ∷ codes "/* [00000018] */ send (8) // r3\n"
      ∷ []
unfolding add_addresses mark format_08X zeros hex_digits hex_digit is_instruction size_of contains
written = refl

big_address : format_08X 0x1a2b3c ≡ codes "001A2B3C"
unfolding format_08X zeros hex_digits hex_digit
big_address = refl

addressed_rows-is_addressed_example : is_addressed 0 (addressed_rows rows) ≡ true
addressed_rows-is_addressed_example = addressed_rows-is_addressed rows

find_stalled-offset_example : find_stalled 24 (addressed_rows rows) ≡ some 4
unfolding addressed_rows is_addressed add_addresses mark format_08X zeros hex_digits hex_digit
    is_instruction size_of contains
find_stalled-offset_example =
    find_stalled-offset rows 4 (codes "/* [00000018] */ send (8) // r3\n") refl refl

get_elem?-add_addresses_example :
    get_elem? (add_addresses 0 rows) 3 ≡ some (mark 8 ++ codes "add (8) // r2\n")
unfolding is_instruction size_of contains
get_elem?-add_addresses_example = get_elem?-add_addresses rows 3

abbrev names : List Text
names = codes "d/k.asm" ∷ codes "d/k_2.asm" ∷ codes "d/k_3.asm" ∷ []

abbrev dump : List (Text × List Text)
dump =
    (codes "d/k_2.asm", rows)
    ∷ (codes "d/k.txt", rows)
    ∷ (codes "d/g.asm", codes "//.kernel g\n" ∷ [])
    ∷ (codes "d/k.asm", rows)
    ∷ []

named : asm_files (λ name. name) (codes "f") dump ≡ some (codes "d/k_2.asm" ∷ codes "d/k.asm" ∷ [])
unfolding asm_files names_kernel words_from ends_with starts_with text_eq is_space
named = refl

choose_asm-IsLatest_example : IsLatest names (codes "d/k_3.asm")
unfolding choose_asm pick_longest pick_largest text_lt
choose_asm-IsLatest_example = choose_asm-IsLatest names (codes "d/k_3.asm") refl

-- A program that cannot be run for names that begin with `x`.
abbrev some_program : Option Text → Text → Option Text
some_program program name =
    if starts_with name (codes "x")
    then none
    else some (codes "typeinfo name for " ++ (name ++ codes "()\n"))

demangle_all-until_failure_example :
    demangle_all some_program (new none) (codes "f" ∷ codes "x" ∷ codes "g" ∷ [])
    ≡ until_failure some_program none (codes "f" ∷ codes "x" ∷ codes "g" ∷ [])
demangle_all-until_failure_example =
    demangle_all-until_failure some_program none (codes "f" ∷ codes "x" ∷ codes "g" ∷ [])

three_names :
    demangle_all some_program (new none) (codes "f" ∷ codes "x" ∷ codes "g" ∷ [])
    ≡ codes "f()" ∷ codes "x" ∷ codes "g" ∷ []
unfolding demangle_all demangle from_cxxfilt first_line starts_with contains
three_names = refl
