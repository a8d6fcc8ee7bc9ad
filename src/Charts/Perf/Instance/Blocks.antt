-- ===== src/Charts/Perf/Instance/Blocks.antt =====
-- The table cut at its blank rows, and the instances of a kernel in the blocks.
use pti_gpu_itt_only.Base.{
  ◌≡◌, refl, ap, true, false, List, [], ◌∷◌, ◌++◌, none, some, if◌then◌else◌,
}
use pti_gpu_itt_only.Text.{Text, text_eq}
use pti_gpu_itt_only.Charts.Perf.Instance.{PerfRow, is_kernel}

module _ {ℓ} {Cells : Type ℓ} where
  abbrev onto_first : PerfRow Cells → List (List (PerfRow Cells)) → List (List (PerfRow Cells))
  onto_first row [] = (row ∷ []) ∷ []
  onto_first row (block ∷ blocks) = (row ∷ block) ∷ blocks

  -- The table cut at its blank rows.
  abbrev pub blocks_of : List (PerfRow Cells) → List (List (PerfRow Cells))
  blocks_of [] = [] ∷ []
  blocks_of ((none, cells) ∷ rows) = [] ∷ blocks_of rows
  blocks_of ((some name, cells) ∷ rows) = onto_first (some name, cells) (blocks_of rows)

  -- A block from its first row of the kernel on.
  abbrev pub from_kernel : Text → List (PerfRow Cells) → List (PerfRow Cells)
  from_kernel kernel [] = []
  from_kernel kernel (row ∷ rows) =
      if is_kernel kernel row.0 then row ∷ rows else from_kernel kernel rows

  -- The instances of the kernel: what remains of the blocks, those without the kernel left out.
  abbrev pub some_from :
      List (PerfRow Cells) → List (List (PerfRow Cells)) → List (List (PerfRow Cells))
  some_from [] others = others
  some_from (row ∷ rows) others = (row ∷ rows) ∷ others

  abbrev pub instances_of : Text → List (List (PerfRow Cells)) → List (List (PerfRow Cells))
  instances_of kernel [] = []
  instances_of kernel (block ∷ blocks) =
      some_from (from_kernel kernel block) (instances_of kernel blocks)

  -- The block that the rows begin with, what stands behind it, and the blocks after it.
  abbrev pub first_block : List (PerfRow Cells) → List (PerfRow Cells)
  first_block [] = []
  first_block ((none, c) ∷ rows) = []
  first_block ((some name, c) ∷ rows) = (some name, c) ∷ first_block rows

  abbrev pub behind_block : List (PerfRow Cells) → List (PerfRow Cells)
  behind_block [] = []
  behind_block ((none, c) ∷ rows) = (none, c) ∷ rows
  behind_block ((some name, c) ∷ rows) = behind_block rows

  abbrev pub later_blocks : List (PerfRow Cells) → List (List (PerfRow Cells))
  later_blocks [] = []
  later_blocks ((none, c) ∷ rows) = blocks_of rows
  later_blocks ((some name, c) ∷ rows) = later_blocks rows

  pub blocks_of-cons :
      (rows : List (PerfRow Cells)) → blocks_of rows ≡ first_block rows ∷ later_blocks rows
  blocks_of-cons [] = refl
  blocks_of-cons ((none, c) ∷ rows) = refl
  blocks_of-cons ((some name, c) ∷ rows) = rw (blocks_of-cons rows) refl

  pub first_block-behind :
      (rows : List (PerfRow Cells)) → rows ≡ first_block rows ++ behind_block rows
  first_block-behind [] = refl
  first_block-behind ((none, c) ∷ rows) = refl
  first_block-behind ((some name, c) ∷ rows) = ap (◌∷◌ (some name, c)) (first_block-behind rows)

  pub instances_of-other :
      (kernel name : Text) (cells : Cells) (rest : List (PerfRow Cells))
      → text_eq name kernel ≡ false
      → instances_of kernel (blocks_of ((some name, cells) ∷ rest))
        ≡ instances_of kernel (blocks_of rest)
  instances_of-other kernel name cells rest h = rw (blocks_of-cons rest) (rw (h) refl)

  pub instances_of-counted :
      (kernel name : Text) (cells : Cells) (rest : List (PerfRow Cells))
      → text_eq name kernel ≡ true
      → instances_of kernel (blocks_of ((some name, cells) ∷ rest))
        ≡ ((some name, cells) ∷ first_block rest) ∷ instances_of kernel (later_blocks rest)
  instances_of-counted kernel name cells rest h = rw (blocks_of-cons rest) (rw (h) refl)
