-- ===== src/Cfg/Tests.antt =====
-- A small kernel's blocks, and the theorems at it.
use pti_gpu_itt_only.Base.{List, [], ◌∷◌, ◌≡◌, ◌≤◌, ◌<◌, refl, none, some, arith}
use pti_gpu_itt_only.Text.{Text, codes, contains, strip, split_on, text_eq}
use pti_gpu_itt_only.Cfg.{
  BasicBlock, Blocks, opens_block, matches_comment, matches_spaces, block_label, names_behind,
  block_names, insert, read_blocks, construct_cfg, find_bb,
}
use pti_gpu_itt_only.Cfg.Cover.{Chain, Holds}
use pti_gpu_itt_only.Cfg.Cover.Whole.{cover_start, construct_cfg-Chain, find_bb-construct_cfg}

abbrev kernel : List Text
kernel =
    codes "//.kernel f"
    ∷ codes "// B000: Preds:{B001}, Succs:{}"
    ∷ codes "mov // r1"
    ∷ codes "// B001: Preds:{B000, B001},  Succs:{B001}"
    ∷ codes "add // r2"
    ∷ []

abbrev blocks : Blocks
blocks =
    (
      codes "B000",
      record { bid = codes "B000"; head = 1; tail = 2; preds = codes "B001" ∷ []; succs = [] },
    )
    ∷ (
      codes "B001",
      record {
        bid = codes "B001";
        head = 3;
        tail = 4;
        preds = codes "B000" ∷ codes "B001" ∷ [];
        succs = codes "B001" ∷ [];
      },
    )
    ∷ []

built : construct_cfg kernel ≡ some blocks
unfolding construct_cfg read_blocks opens_block matches_comment matches_spaces block_label
    names_behind block_names insert contains split_on strip text_eq
built = refl

construct_cfg-Chain_example : Chain blocks 1 5
unfolding opens_block matches_comment matches_spaces block_label names_behind block_names contains
    split_on strip text_eq
construct_cfg-Chain_example =
    construct_cfg-Chain kernel blocks (omega arith) ((refl, tt), (tt, tt)) built

find_bb-construct_cfg_example :
    (cover_start kernel ≤ 4
      → (found : Text × BasicBlock) × (find_bb blocks 4 ≡ some found) × Holds 4 found)
    × (4 < cover_start kernel → find_bb blocks 4 ≡ none)
unfolding opens_block matches_comment matches_spaces block_label names_behind block_names contains
    split_on strip text_eq
find_bb-construct_cfg_example =
    find_bb-construct_cfg kernel blocks 4 ((refl, tt), (tt, tt)) built (omega arith)
