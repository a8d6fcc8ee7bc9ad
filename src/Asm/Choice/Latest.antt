-- ===== src/Asm/Choice/Latest.antt =====
-- Which of several assembly files of a kernel `AnalyzeStalls` takes.
use pti_gpu_itt_only.Base.{
  ℕ, ◌≤◌, ◌≡◌, ◌∙◌, ◌⊎◌, refl, ap, arith, true, false, ◌&&◌, List, [], ◌∷◌, some, length, All, ◌==◌,
  ltb, inl, inr, Bool-cases,
}
use pti_gpu_itt_only.Text.{Text}
use pti_gpu_itt_only.Asm.Choice.{text_lt, pick_longest, pick_largest, choose_asm}

-- One of the files.
abbrev pub IsOneOf : Text → List Text → Type 0
IsOneOf x [] = ⊥
IsOneOf x (y ∷ ys) = (x ≡ y) ⊎ IsOneOf x ys

-- `x` is at least as long as `f`, and not smaller if they are equally long.
abbrev pub Beats : Text → Text → Type 0
Beats x f = (length f ≤ length x) × (length f ≡ length x → text_lt x f ≡ false)

text_lt_irrefl : (a : Text) → text_lt a a ≡ false
unfolding text_lt
text_lt_irrefl [] = refl
text_lt_irrefl (x ∷ a) = ground (arith, text_lt_irrefl a)

text_lt-between : (a b c : Text) → text_lt a c ≡ false → text_lt a b ≡ true → text_lt b c ≡ false
unfolding text_lt
text_lt-between [] [] [] h k = refl
text_lt-between [] [] (z ∷ c) h k = absurd (ground arith)
text_lt-between [] (y ∷ b) [] h k = refl
text_lt-between [] (y ∷ b) (z ∷ c) h k = absurd (ground arith)
text_lt-between (x ∷ a) [] c h k = absurd (ground arith)
text_lt-between (x ∷ a) (y ∷ b) [] h k = refl
text_lt-between (x ∷ a) (y ∷ b) (z ∷ c) h k = ground (arith, text_lt-between a b c)

module _ (f : Text) (files : List Text) (asm : Text) (longest : ℕ) where
  pick_longest_take :
      ltb longest (length f) ≡ true
      → pick_longest (f ∷ files) asm longest ≡ pick_longest files f (length f)
  unfolding pick_longest
  pick_longest_take h = rw h

  pick_longest_keep :
      ltb longest (length f) ≡ false
      → pick_longest (f ∷ files) asm longest ≡ pick_longest files asm longest
  unfolding pick_longest
  pick_longest_keep h = rw h

  pick_largest_take :
      (length f == longest && text_lt asm f) ≡ true
      → pick_largest longest (f ∷ files) asm ≡ pick_largest longest files f
  unfolding pick_largest
  pick_largest_take h = rw h

  pick_largest_keep :
      (length f == longest && text_lt asm f) ≡ false
      → pick_largest longest (f ∷ files) asm ≡ pick_largest longest files asm
  unfolding pick_largest
  pick_largest_keep h = rw h

-- What the first loop leaves: a name of the length that it keeps, which no file exceeds.
record IsLongest (files : List Text) (asm : Text) (longest : ℕ) (r : Text × ℕ) : Type 0 where
  same : length r.0 ≡ r.1
  grown : longest ≤ r.1
  longest_all : All (λ f. length f ≤ r.1) files
  member : (r.0 ≡ asm) ⊎ IsOneOf r.0 files

later_member :
    (x asm f : Text) (files : List Text)
    → (x ≡ asm) ⊎ IsOneOf x files
    → (x ≡ asm) ⊎ IsOneOf x (f ∷ files)
later_member x asm f files (inl e) = inl e
later_member x asm f files (inr m) = inr (inr m)

pick_longest-IsLongest :
    (files : List Text) (asm : Text) (longest : ℕ)
    → length asm ≡ longest
    → IsLongest files asm longest (pick_longest files asm longest)
pick_longest-IsLongest [] asm longest h =
    unfold pick_longest in
    record { same = h; grown = omega arith; longest_all = tt; member = inl refl }
pick_longest-IsLongest (f ∷ files) asm longest h = elim (Bool-cases (ltb longest (length f))) [
  | inl e ↦
      let r = pick_longest-IsLongest files f (length f) refl in
      rw (pick_longest_take f files asm longest e) (record {
        same = r.same;
        grown = ground arith;
        longest_all = (r.grown, r.longest_all);
        member = inr r.member;
      })
  | inr e ↦
      let r = pick_longest-IsLongest files asm longest h in
      rw (pick_longest_keep f files asm longest e) (record {
        same = r.same;
        grown = r.grown;
        longest_all = (ground arith, r.longest_all);
        member = later_member (pick_longest files asm longest).0 asm f files r.member;
      })
]

record IsLargest (longest : ℕ) (files : List Text) (asm r : Text) : Type 0 where
  long : length r ≡ longest
  above : (c : Text) → text_lt asm c ≡ false → text_lt r c ≡ false
  above_all : All (λ f. length f ≡ longest → text_lt r f ≡ false) files
  member : (r ≡ asm) ⊎ IsOneOf r files

pick_largest-IsLargest :
    (longest : ℕ) (files : List Text) (asm : Text)
    → length asm ≡ longest
    → IsLargest longest files asm (pick_largest longest files asm)
pick_largest-IsLargest longest [] asm h =
    unfold pick_largest in record { long = h; above = λ c k. k; above_all = tt; member = inl refl }
pick_largest-IsLargest longest (f ∷ files) asm h =
    elim (Bool-cases (length f == longest && text_lt asm f)) [
      | inl e ↦
          let long : length f ≡ longest = ground arith in
          let below : text_lt asm f ≡ true = ground arith in
          let r = pick_largest-IsLargest longest files f long in
          rw (pick_largest_take f files asm longest e) (record {
            long = r.long;
            above = λ c k. r.above c (text_lt-between asm f c k below);
            above_all = ((λ _. r.above f (text_lt_irrefl f)), r.above_all);
            member = inr r.member;
          })
      | inr e ↦
          let r = pick_largest-IsLargest longest files asm h in
          rw (pick_largest_keep f files asm longest e) (record {
            long = r.long;
            above = r.above;
            above_all = ((λ same. r.above f (ground arith)), r.above_all);
            member = later_member (pick_largest longest files asm) asm f files r.member;
          })
    ]

pick_longest_first :
    (f : Text) (files : List Text) → pick_longest (f ∷ files) f 0 ≡ pick_longest files f (length f)
pick_longest_first f files = elim (Bool-cases (ltb 0 (length f))) [
  | inl e ↦ pick_longest_take f files f 0 e
  | inr e ↦
      let empty : 0 ≡ length f = ground arith in
      pick_longest_keep f files f 0 e ∙ ap (pick_longest files f) empty
]

All-Beats :
    (x : Text) (longest : ℕ) (files : List Text)
    → length x ≡ longest
    → All (λ f. length f ≤ longest) files
    → All (λ f. length f ≡ longest → text_lt x f ≡ false) files
    → All (Beats x) files
All-Beats x longest [] h k l = tt
All-Beats x longest (f ∷ files) h (k, ks) (l, ls) =
    ((omega arith, (λ e. l (omega arith))), All-Beats x longest files h ks ls)

member_of_either :
    (x asm : Text) (files : List Text)
    → IsOneOf asm files
    → (x ≡ asm) ⊎ IsOneOf x files
    → IsOneOf x files
member_of_either x asm files h (inl e) = rw e h
member_of_either x asm files h (inr m) = m

-- The file to analyse among those that name the kernel: none of them has a longer name, and none
-- with a name of the same length has a greater one.
pub record IsLatest (files : List Text) (x : Text) : Type 0 where
  pub member : IsOneOf x files
  pub beats : All (Beats x) files

pick_two :
    (f : Text) (files : List Text)
    → let p = pick_longest files f (length f) in
      IsLatest (f ∷ files) (pick_largest p.1 (f ∷ files) p.0)
pick_two f files =
    let p = pick_longest files f (length f) in
    let l = pick_longest-IsLongest files f (length f) refl in
    let g = pick_largest-IsLargest p.1 (f ∷ files) p.0 l.same in
    record {
      member =
          member_of_either (pick_largest p.1 (f ∷ files) p.0) p.0 (f ∷ files) l.member g.member;
      beats =
          All-Beats (pick_largest p.1 (f ∷ files) p.0) p.1 (f ∷ files) g.long
            (l.grown, l.longest_all) g.above_all;
    }

-- The file chosen is one of those that name the kernel; none of them has a longer name, and none
-- with a name of the same length has a greater one.
pub choose_asm-IsLatest :
    (files : List Text) (x : Text) → choose_asm files ≡ some x → IsLatest files x
unfolding choose_asm
choose_asm-IsLatest [] x h = absurd (ground arith)
choose_asm-IsLatest (f ∷ []) x h =
    let same : f ≡ x = cc h in
    rw (← same) (record { member = inl refl; beats = ((omega arith, (λ e. text_lt_irrefl f)), tt) })
choose_asm-IsLatest (f ∷ g ∷ files) x h =
    let p = pick_longest (g ∷ files) f (length f) in
    let same : pick_largest p.1 (f ∷ g ∷ files) p.0 ≡ x =
      cc (rw (pick_longest_first f (g ∷ files)) at h) in
    rw (← same) (pick_two f (g ∷ files))
