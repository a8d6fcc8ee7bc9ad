-- ===== src/Cfg/Cover.antt =====
-- The blocks of `ConstructCFG` as parts of the assembly, one behind the other.
pub mod Whole
use pti_gpu_itt_only.Base.{
  ℕ, zero, suc, ◌+◌, ◌-◌, ◌≤◌, ◌<◌, ◌≡◌, ◌≢◌, ◌∙◌, ◌⊎◌, inl, inr, refl, sym, ap, arith, Bool, true,
  false, ◌&&◌, ◌||◌, List, [], ◌∷◌, ◌++◌, Option, none, some, if◌then◌else◌, length, All, ◌==◌, leb,
  append_assoc, append-nil, Bool-cases, Option-cases, ◌>>=◌,
}
use pti_gpu_itt_only.Text.{Text, codes, text_eq}
use pti_gpu_itt_only.Cfg.{
  BasicBlock, in_bb, opens_block, Label, block_label, Blocks, insert, OpenBlock, close_block,
  read_blocks, or_dummy, construct_cfg, find_bb,
}

-- The names of the blocks whose comments stand in the assembly.
abbrev pub block_ids : List Text → List Text
block_ids [] = []
block_ids (ins ∷ rest) =
    if opens_block ins
    then elim (block_label ins) [ none ↦ block_ids rest | some l ↦ l.bid ∷ block_ids rest ]
    else block_ids rest

-- The address of the first block comment, if there is one.
abbrev pub first_block : List Text → Option ℕ
first_block [] = none
first_block (ins ∷ rest) =
    if opens_block ins
    then some 0
    else elim (first_block rest) [ none ↦ none | some i ↦ some (i + 1) ]

abbrev pub Distinct : List Text → Type 0
Distinct [] = Unit
Distinct (x ∷ xs) = All (λ y. text_eq x y ≡ false) xs × Distinct xs

abbrev keys : Blocks → List Text
keys [] = []
keys ((k, bb) ∷ bbs) = k ∷ keys bbs

-- Each block begins behind the one before it: the first at `n`, and the last ends before `m`.
abbrev pub Chain : Blocks → ℕ → ℕ → Type 0
Chain [] n m = n ≡ m
Chain ((k, bb) ∷ bbs) n m = (bb.head ≡ n) × (bb.head ≤ bb.tail) × Chain bbs (bb.tail + 1) m

Chain-append :
    (bbs : Blocks) (n h : ℕ) (k : Text) (bb : BasicBlock)
    → Chain bbs n h
    → bb.head ≡ h
    → h ≤ bb.tail
    → Chain (bbs ++ ((k, bb) ∷ [])) n (bb.tail + 1)
Chain-append [] n h k bb c e le = (omega arith, omega arith, refl)
Chain-append ((j, old) ∷ bbs) n h k bb c e le =
    (c.0, c.1, Chain-append bbs (old.tail + 1) h k bb c.2 e le)

All-append_left :
    (k : Text) (xs ys : List Text)
    → All (λ y. text_eq k y ≡ false) (xs ++ ys)
    → All (λ y. text_eq k y ≡ false) xs × All (λ y. text_eq k y ≡ false) ys
All-append_left k [] ys h = (tt, h)
All-append_left k (x ∷ xs) ys (h, hs) = let r = All-append_left k xs ys hs in ((h, r.0), r.1)

-- A key that is not there is put at the end.
insert-append :
    (bbs : Blocks) (k : Text) (bb : BasicBlock) (more : List Text)
    → Distinct (keys bbs ++ (k ∷ more))
    → insert k bb bbs ≡ bbs ++ ((k, bb) ∷ [])
unfolding insert
insert-append [] k bb more d = refl
insert-append ((j, old) ∷ bbs) k bb more (dj, d) =
    rw ((All-append_left j (keys bbs) (k ∷ more) dj).1.0, insert-append bbs k bb more d)

keys-append :
    (bbs : Blocks) (k : Text) (bb : BasicBlock)
    → keys (bbs ++ ((k, bb) ∷ [])) ≡ keys bbs ++ (k ∷ [])
keys-append [] k bb = refl
keys-append ((j, old) ∷ bbs) k bb = ap (◌∷◌ j) (keys-append bbs k bb)

find_bb-none : (bbs : Blocks) (n m i : ℕ) → Chain bbs n m → i < n → find_bb bbs i ≡ none
unfolding find_bb in_bb
find_bb-none [] n m i c h = refl
find_bb-none ((k, bb) ∷ bbs) n m i c h = ground (arith, find_bb-none bbs (bb.tail + 1) m i c.2)

-- A block that holds the address.
abbrev pub Holds : ℕ → Text × BasicBlock → Type 0
Holds i found = (found.1.head ≤ i) × (i ≤ found.1.tail)

find_bb-some :
    (bbs : Blocks) (n m i : ℕ)
    → Chain bbs n m
    → n ≤ i
    → i < m
    → (found : Text × BasicBlock) × (find_bb bbs i ≡ some found) × Holds i found
unfolding find_bb in_bb
find_bb-some [] n m i c h lt = absurd (omega arith)
find_bb-some ((k, bb) ∷ bbs) n m i c h lt = elim (Bool-cases (leb i bb.tail)) [
  | inl e ↦ ((k, bb), ground arith, (ground arith, ground arith))
  | inr e ↦
      let rest = find_bb-some bbs (bb.tail + 1) m i c.2 (ground arith) lt in
      (rest.0, ground (arith, rest.1), rest.2)
]

module _ (ins : Text) (rest : List Text) (addr : ℕ) (current : OpenBlock) (bbs : Blocks) where
  read_blocks_plain :
      opens_block ins ≡ false
      → read_blocks (ins ∷ rest) addr current bbs ≡ read_blocks rest (addr + 1) current bbs
  unfolding read_blocks
  read_blocks_plain h = rw (h, read_blocks)

  read_blocks_label :
      (l : Label)
      → opens_block ins ≡ true
      → block_label ins ≡ some l
      → read_blocks (ins ∷ rest) addr current bbs
        ≡ read_blocks rest (addr + 1) (some (l, addr)) (close_block current (addr - 1) bbs)
  unfolding read_blocks
  read_blocks_label l h e = rw (h, read_blocks) (rw e)

  read_blocks_cut :
      opens_block ins ≡ true
      → block_label ins ≡ none
      → read_blocks (ins ∷ rest) addr current bbs ≡ none
  unfolding read_blocks
  read_blocks_cut h e = rw (h, read_blocks) (rw e)

close_block-Chain :
    (l : Label) (h t : ℕ) (bbs : Blocks) (n : ℕ) (more : List Text)
    → Chain bbs n h
    → h ≤ t
    → Distinct (keys bbs ++ (l.bid ∷ more))
    → Chain (close_block (some (l, h)) t bbs) n (t + 1)
      × (keys (close_block (some (l, h)) t bbs) ≡ keys bbs ++ (l.bid ∷ []))
close_block-Chain l h t bbs n more c le d =
    rw (insert-append bbs l.bid _ more d)
      (Chain-append bbs n h l.bid _ c refl le, keys-append bbs l.bid _)

ids_label :
    (ins : Text) (rest : List Text) (l : Label)
    → opens_block ins ≡ true
    → block_label ins ≡ some l
    → block_ids (ins ∷ rest) ≡ l.bid ∷ block_ids rest
ids_label ins rest l h e = rw h (rw e)

ids_plain :
    (ins : Text) (rest : List Text)
    → opens_block ins ≡ false
    → block_ids (ins ∷ rest) ≡ block_ids rest
ids_plain ins rest h = rw h

read_blocks-Chain :
    (rest : List Text) (addr : ℕ) (l : Label) (h : ℕ) (bbs : Blocks) (n : ℕ) (out : Blocks)
    → Chain bbs n h
    → h < addr
    → Distinct (keys bbs ++ (l.bid ∷ block_ids rest))
    → read_blocks rest addr (some (l, h)) bbs ≡ some out
    → Chain out n (addr + length rest)
read_blocks-Chain [] addr l h bbs n out c lt d e =
    let e' : close_block (some (l, h)) (addr - 1) bbs ≡ out = unfold read_blocks in cc e in
    let up : addr - 1 + 1 ≡ addr + 0 = omega arith in
    rw (← e', ← up) (close_block-Chain l h (addr - 1) bbs n [] c (omega arith) d).0
read_blocks-Chain (ins ∷ rest) addr l h bbs n out c lt d e = elim (Bool-cases (opens_block ins)) [
  | inr plain ↦
      let up : addr + 1 + length rest ≡ addr + length (ins ∷ rest) = omega arith in
      rw (← up) (
        read_blocks-Chain rest (addr + 1) l h bbs n out c (omega arith)
          (rw (ids_plain ins rest plain) at d)
          (sym (read_blocks_plain ins rest addr (some (l, h)) bbs plain) ∙ e))
  | inl opens ↦ elim (Option-cases (block_label ins)) [
    | inl cut ↦ absurd (ground (arith, read_blocks_cut ins rest addr (some (l, h)) bbs opens cut))
    | inr (l', found) ↦
        let closed =
          close_block-Chain l h (addr - 1) bbs n (block_ids (ins ∷ rest)) c (omega arith) d in
        let up : addr + 1 + length rest ≡ addr + length (ins ∷ rest) = omega arith in
        let here : addr - 1 + 1 ≡ addr = omega arith in
        rw (← up) (
          read_blocks-Chain rest (addr + 1) l' addr (close_block (some (l, h)) (addr - 1) bbs) n out
            (rw here at closed.0) (omega arith)
            (rw (closed.1, append_assoc (keys bbs) (l.bid ∷ []) (l'.bid ∷ block_ids rest))
              (rw (ids_label ins rest l' opens found) at d))
            (sym (read_blocks_label ins rest addr (some (l, h)) bbs l' opens found) ∙ e))
  ]
]
