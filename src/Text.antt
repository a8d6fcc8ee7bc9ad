-- ===== src/Text.antt =====
-- Python's `str`, as a list of code points, with the methods that the scripts call.
use Prim.Native.Char.{code}
use Prim.Native.String.{String}
use pti_gpu_itt_only.Base.{
  ℕ, zero, suc, ◌-◌, ◌↔◌, ◌≡◌, arith, Bool, true, false, ◌&&◌, ◌||◌, List, [], ◌∷◌, ◌==◌, leb,
  if◌then◌else◌, length,
}

abbrev pub Text : Type 0
Text = List ℕ

-- A literal of the source. All of them are ASCII.
abbrev pub codes : String → Text
codes String.[] = []
codes (String.◌∷◌ c s) = code c ∷ codes s

-- `a == b`
unfoldable pub text_eq : Text → Text → Bool
text_eq [] [] = true
text_eq (x ∷ xs) (y ∷ ys) = x == y && text_eq xs ys
text_eq _ _ = false

pub text_eq_iff : (a b : Text) → (text_eq a b ≡ true) ↔ (a ≡ b)
unfolding text_eq
text_eq_iff (x ∷ a) (y ∷ b) = ground (arith, text_eq_iff a b)
text_eq_iff _ _ = ground arith

-- `s.startswith(prefix)`
unfoldable pub starts_with : Text → Text → Bool
starts_with s [] = true
starts_with [] (p ∷ prefix) = false
starts_with (c ∷ s) (p ∷ prefix) = c == p && starts_with s prefix

-- `part in s`
unfoldable pub contains : Text → Text → Bool
unfolding starts_with
contains [] part = starts_with [] part
contains (c ∷ s) part = starts_with (c ∷ s) part || contains s part

-- The ASCII characters that `str.strip` and `str.split` take for whitespace.
unfoldable pub is_space : ℕ → Bool
is_space c = leb 9 c && leb c 13 || leb 28 c && leb c 32

unfoldable pub lstrip : Text → Text
unfolding is_space
lstrip [] = []
lstrip (c ∷ s) = let rest = lstrip s in if is_space c then rest else c ∷ s

-- Drops whitespace at the end: a character stays if it, or anything behind it, is no whitespace.
unfoldable pub rstrip : Text → Text
unfolding is_space
rstrip [] = []
rstrip (c ∷ s) = elim (rstrip s) [ [] ↦ if is_space c then [] else c ∷ [] | d ∷ t ↦ c ∷ d ∷ t ]

-- `s.strip()`
unfoldable pub strip : Text → Text
unfolding lstrip rstrip
strip s = rstrip (lstrip s)

abbrev pub push_head : ℕ → List Text → List Text
push_head c [] = (c ∷ []) ∷ []
push_head c (w ∷ ws) = (c ∷ w) ∷ ws

-- `s.split(sep)` for a separator of at least one character. The number counts the characters of
-- a separator just met that are still to be passed over.
unfoldable pub split_on : ℕ → Text → Text → List Text
unfolding starts_with
split_on k sep [] = [] ∷ []
split_on zero sep (c ∷ s) =
    let hit = starts_with (c ∷ s) sep in
    let rest = split_on (if hit then length sep - 1 else 0) sep s in
    if hit then [] ∷ rest else push_head c rest
split_on (suc k) sep (c ∷ s) = split_on k sep s

abbrev pub split : Text → Text → List Text
split s sep = split_on 0 sep s
