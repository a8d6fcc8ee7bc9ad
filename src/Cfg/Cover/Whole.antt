-- ===== src/Cfg/Cover/Whole.antt =====
-- `ConstructCFG` and `FindBB` together.
use pti_gpu_itt_only.Base.{
  ℕ, ◌+◌, ◌≤◌, ◌<◌, ◌≡◌, ◌∙◌, inl, inr, refl, sym, arith, List, [], ◌∷◌, Option, none, some, length,
  Bool-cases, Option-cases,
}
use pti_gpu_itt_only.Text.{Text}
use pti_gpu_itt_only.Cfg.{
  BasicBlock, opens_block, block_label, Blocks, read_blocks, or_dummy, construct_cfg, find_bb,
}
use pti_gpu_itt_only.Cfg.Cover.{
  block_ids, first_block, Distinct, Chain, find_bb-none, find_bb-some, Holds, read_blocks_plain,
  read_blocks_label, read_blocks_cut, ids_label, ids_plain, read_blocks-Chain,
}

first_block-lt : (rest : List Text) (i : ℕ) → first_block rest ≡ some i → i < length rest
first_block-lt [] i h = absurd (ground (arith, h))
first_block-lt (ins ∷ rest) i h = elim (Option-cases (first_block rest)) [
  | inl e ↦ ground arith
  | inr (j, e) ↦ ground (arith, first_block-lt rest j e)
]

-- What the loop makes of lines with no block open.
abbrev Started : List Text → ℕ → Blocks → Option ℕ → Type 0
Started rest addr out none = out ≡ []
Started rest addr out (some i) = Chain out (addr + i) (addr + length rest)

Started-later :
    (ins : Text) (rest : List Text) (addr : ℕ) (out : Blocks) (o : Option ℕ)
    → Started rest (addr + 1) out o
    → Started (ins ∷ rest) addr out (elim o [ none ↦ none | some i ↦ some (i + 1) ])
Started-later ins rest addr out none s = s
Started-later ins rest addr out (some i) s =
    let a : addr + 1 + i ≡ addr + (i + 1) = omega arith in
    let b : addr + 1 + length rest ≡ addr + length (ins ∷ rest) = omega arith in rw (← a, ← b) s

read_blocks_start :
    (rest : List Text) (addr : ℕ) (out : Blocks)
    → Distinct (block_ids rest)
    → read_blocks rest addr none [] ≡ some out
    → Started rest addr out (first_block rest)
read_blocks_start [] addr out d e = unfold read_blocks in cc e
read_blocks_start (ins ∷ rest) addr out d e = elim (Bool-cases (opens_block ins)) [
  | inr plain ↦ rw plain (
      Started-later ins rest addr out (first_block rest) (
        read_blocks_start rest (addr + 1) out (rw (ids_plain ins rest plain) at d)
          (sym (read_blocks_plain ins rest addr none [] plain) ∙ e)))
  | inl opens ↦ elim (Option-cases (block_label ins)) [
    | inl cut ↦ absurd (ground (arith, read_blocks_cut ins rest addr none [] opens cut))
    | inr (l, found) ↦
        let a : addr ≡ addr + 0 = omega arith in
        let b : addr + 1 + length rest ≡ addr + length (ins ∷ rest) = omega arith in
        rw (opens, ← b, ← a)
          (read_blocks-Chain rest (addr + 1) l addr [] addr out refl (omega arith)
            (rw (ids_label ins rest l opens found) at d)
            (sym (read_blocks_label ins rest addr none [] l opens found) ∙ e))
  ]
]

-- Where the blocks begin: at the first block comment, or at address 0 if there is none.
abbrev pub cover_start : List Text → ℕ
cover_start instructions = elim (first_block instructions) [ none ↦ 0 | some i ↦ i ]

or_dummy-Chain :
    (instructions : List Text) (out : Blocks) (o : Option ℕ)
    → 0 < length instructions
    → ((i : ℕ) → o ≡ some i → i < length instructions)
    → Started instructions 0 out o
    → Chain
        (or_dummy (length instructions) out)
        (elim o [ none ↦ 0 | some i ↦ i ])
        (length instructions)
or_dummy-Chain instructions [] none pos lt s = (refl, omega arith, omega arith)
or_dummy-Chain instructions (b ∷ out) none pos lt s = absurd (ground (arith, s))
or_dummy-Chain instructions [] (some i) pos lt s = absurd (omega (arith, lt i refl, s))
or_dummy-Chain instructions (b ∷ out) (some i) pos lt s =
    let a : 0 + i ≡ i = omega arith in
    let l : 0 + length instructions ≡ length instructions = omega arith in rw (a, l) at s

-- Where no two block comments give the same name, the blocks that are built follow one another
-- without a gap or an overlap: each has its head no later than its tail, the first begins at the
-- first block comment (at address 0 if there is none), each other right behind the one before it,
-- and the last ends with the last line.
pub construct_cfg-Chain :
    (instructions : List Text) (bbs : Blocks)
    → 0 < length instructions
    → Distinct (block_ids instructions)
    → construct_cfg instructions ≡ some bbs
    → Chain bbs (cover_start instructions) (length instructions)
unfolding construct_cfg
construct_cfg-Chain instructions bbs pos d e =
    elim (Option-cases (read_blocks instructions 0 none [])) [
      | inl h ↦ absurd (ground arith)
      | inr (out, h) ↦
          let e' : or_dummy (length instructions) out ≡ bbs = cc (rw h at e) in
          rw (← e') (
            or_dummy-Chain instructions out (first_block instructions) pos
              (first_block-lt instructions) (read_blocks_start instructions 0 out d h))
    ]

-- Under the same conditions the lookup of an address in the assembly finds a block that holds it
-- if the address is not before the first block, and finds none otherwise.
pub find_bb-construct_cfg :
    (instructions : List Text) (bbs : Blocks) (i : ℕ)
    → Distinct (block_ids instructions)
    → construct_cfg instructions ≡ some bbs
    → i < length instructions
    → (cover_start instructions ≤ i
        → (found : Text × BasicBlock) × (find_bb bbs i ≡ some found) × Holds i found)
      × (i < cover_start instructions → find_bb bbs i ≡ none)
find_bb-construct_cfg instructions bbs i d e lt =
    let c = construct_cfg-Chain instructions bbs (omega arith) d e in
    (
      (λ h. find_bb-some bbs (cover_start instructions) (length instructions) i c h lt),
      (λ h. find_bb-none bbs (cover_start instructions) (length instructions) i c h),
    )
