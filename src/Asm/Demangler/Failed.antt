-- ===== src/Asm/Demangler/Failed.antt =====
-- The names that a `Demangler` gives, and the first failure of its program.
use pti_gpu_itt_only.Base.{
  ◌≡◌, ◌∙◌, refl, sym, ap, false, List, [], ◌∷◌, Option, none, some, Option-cases, inl, inr,
}
use pti_gpu_itt_only.Text.{Text}
use pti_gpu_itt_only.Asm.Demangler.{new, printed_name, demangle, demangle_all}

module _ (run : Option Text → Text → Option Text) where
  -- The names that are printed until the program cannot be run, and from there on the names themselves.
  abbrev pub until_failure : Option Text → List Text → List Text
  until_failure program [] = []
  until_failure program (name ∷ names) = elim (run program name) [
    | some stdout ↦ printed_name program name stdout ∷ until_failure program names
    | none ↦ name ∷ names
  ]

  demangle_all-unavailable :
      (program : Option Text) (names : List Text)
      → demangle_all run (record { available = false; demangler = program }) names ≡ names
  unfolding demangle_all demangle
  demangle_all-unavailable program [] = refl
  demangle_all-unavailable program (name ∷ names) =
      ap (◌∷◌ name) (demangle_all-unavailable program names)

  -- Of names given to a new object one after the other, those before the first that its program cannot be
  -- run for are taken from what it prints; that one and all behind it are given back as they are.
  pub demangle_all-until_failure :
      (program : Option Text) (names : List Text)
      → demangle_all run (new program) names ≡ until_failure program names
  unfolding demangle_all demangle
  demangle_all-until_failure program [] = refl
  demangle_all-until_failure program (name ∷ names) = elim (Option-cases (run program name)) [
    | inl e ↦
        let step : until_failure program (name ∷ names) ≡ name ∷ names =
          rw (e, until_failure) refl in
        let given_back : demangle_all run (new program) (name ∷ names) ≡ name ∷ names =
          rw (e, demangle_all) (ap (◌∷◌ name) (demangle_all-unavailable program names)) in
        given_back ∙ sym step
    | inr (stdout, e) ↦
        let printed = printed_name program name stdout in
        let step : until_failure program (name ∷ names) ≡ printed ∷ until_failure program names =
          rw (e, until_failure) refl in
        let first : demangle_all run (new program) (name ∷ names)
            ≡ printed ∷ until_failure program names =
          rw (e, demangle_all) (ap (◌∷◌ printed) (demangle_all-until_failure program names)) in
        first ∙ sym step
  ]
