-- ===== src/Asm/Demangler.antt =====
-- `class Demangler` of `tools/unitrace/scripts/metrics/analyzeperfmetrics.py`. What the program prints for
-- a name is a parameter, `none` where it cannot be run; the program is `c++filt` where no other is given.
pub mod Failed
use pti_gpu_itt_only.Base.{
  ℕ, zero, suc, Bool, true, false, List, [], ◌∷◌, Option, none, some, if◌then◌else◌, drop, ◌==◌,
}
use pti_gpu_itt_only.Text.{Text, codes, contains}

pub record Demangler : Type 0 where
  pub available : Bool
  pub demangler : Option Text

-- `Demangler( demangler )`
abbrev pub new : Option Text → Demangler
new demangler = record { available = true; demangler = demangler }

-- `stdout.split("\n")[0]`
unfoldable pub first_line : Text → Text
first_line [] = []
first_line (c ∷ s) = let rest = first_line s in if c == 10 then [] else c ∷ rest

abbrev pub ends_line : Text → Bool
ends_line [] = false
ends_line (c ∷ []) = c == 10
ends_line (c ∷ d ∷ s) = ends_line (d ∷ s)

-- The name in what `c++filt` prints: without "typeinfo name for " in front, or else the name it was given.
unfoldable pub from_cxxfilt : Text → Text → Text
from_cxxfilt name stdout =
    let demangled = first_line stdout in
    if contains demangled (codes "typeinfo name for") then drop 18 demangled else name

-- The name in what another program prints.
unfoldable pub from_program : Text → Text
from_program stdout =
    let demangled = if ends_line stdout then first_line stdout else stdout in
    if contains demangled (codes "typeinfo name for") then drop 18 demangled else demangled

abbrev pub printed_name : Option Text → Text → Text → Text
printed_name none name stdout = from_cxxfilt name stdout
printed_name (some program) name stdout = from_program stdout

module _ (run : Option Text → Text → Option Text) where
  -- `Demangle`: the name, and the object behind the call.
  unfoldable pub demangle : Demangler → Text → Text × Demangler
  demangle d name =
      if d.available
      then (elim (run d.demangler name) as (λ _. Text × Demangler) [
        | some stdout ↦ (printed_name d.demangler name stdout, d)
        | none ↦ (name, record { available = false; demangler = d.demangler })
      ])
      else (name, d)

  -- Calls of `Demangle` on one object, for one name after the other.
  unfoldable pub demangle_all : Demangler → List Text → List Text
  demangle_all d [] = []
  demangle_all d (name ∷ names) =
      let (demangled, d') = demangle d name in demangled ∷ demangle_all d' names
