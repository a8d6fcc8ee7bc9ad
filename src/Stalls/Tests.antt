-- ===== src/Stalls/Tests.antt =====
-- A loop that waits for a token that nothing sets, and the theorem at it.
use pti_gpu_itt_only.Base.{List, [], ◌∷◌, ◌≡◌, refl, none, some, false}
use pti_gpu_itt_only.Text.{Text, codes, contains, starts_with, strip, split_on, text_eq}
use pti_gpu_itt_only.Asm.{is_instruction}
use pti_gpu_itt_only.Cfg.{BasicBlock, Blocks, find_bb, in_bb, matches_comment, matches_spaces}
use pti_gpu_itt_only.Stalls.Tokens.{
  sbids_stalled, sbids_stall, listed, waited, moves_memory, is_dotted, base_of, waited_in_words,
  resolves, compare_tokens, compare_from, compare_token, remove,
}
use pti_gpu_itt_only.Stalls.Search.{
  finished, out_of_fuel, lookup, ranges_of, search_stall, search_blocks, visit, after_block,
  scan_block, note_tokens, note_source, rows_back, numbered, is_resolved, scan_source, put_place,
}
use pti_gpu_itt_only.Stalls.Search.Endless.{search_stall-out_of_fuel}

abbrev adding : Text
adding = codes "/* [00000010] */ add // {$1.dst}"

abbrev loop_rows : List Text
loop_rows =
    codes "// B000: Preds:{B001}, Succs:{B001}"
    ∷ codes "/* [00000000] */ mov // {$2}"
    ∷ codes "// B001: Preds:{B000},  Succs:{B000}"
    ∷ adding
    ∷ []

abbrev loop_start : BasicBlock
loop_start = record {
  bid = codes "B000";
  head = 0;
  tail = 1;
  preds = codes "B001" ∷ [];
  succs = codes "B001" ∷ [];
}

abbrev loop_end : BasicBlock
loop_end = record {
  bid = codes "B001";
  head = 2;
  tail = 3;
  preds = codes "B000" ∷ [];
  succs = codes "B000" ∷ [];
}

abbrev loop_blocks : Blocks
loop_blocks = (codes "B000", loop_start) ∷ (codes "B001", loop_end) ∷ []

search_stall-out_of_fuel_example :
    search_stall loop_rows loop_blocks false 1000 3 adding ≡ out_of_fuel
unfolding find_bb in_bb lookup ranges_of sbids_stalled sbids_stall resolves listed waited
    moves_memory is_dotted base_of waited_in_words is_instruction contains starts_with split_on
    strip text_eq
search_stall-out_of_fuel_example =
    search_stall-out_of_fuel loop_rows loop_blocks false (codes "$1.dst") 1000 3 adding
      (codes "B001") loop_end loop_end refl refl refl (tt, ((refl, tt), (tt, ((refl, tt), tt))))
      (((codes "B001", 2, 4), [], refl), (((codes "B000", 0, 2), [], refl), tt))

-- A straight kernel: the stalled addition waits for what the load sets.
abbrev loading : Text
loading = codes "/* [00000000] */ load // {$1}"

abbrev straight_rows : List Text
straight_rows =
    codes "// B000: Preds:{}, Succs:{}"
    ∷ codes "// Line 7: a = b[i]"
    ∷ loading
    ∷ codes "// Line 8: c = a + 1"
    ∷ adding
    ∷ []

abbrev straight_blocks : Blocks
straight_blocks =
    (codes "B000", record { bid = codes "B000"; head = 0; tail = 4; preds = []; succs = [] }) ∷ []

straight_search :
    search_stall straight_rows straight_blocks false 1 4 adding
    ≡ finished (record {
      waiting = [];
      line = some 3;
      file = none;
      no_line = 2 ∷ [];
      no_file = 2 ∷ [];
      lines = [];
      files = [];
    })
unfolding search_stall search_blocks visit after_block scan_block note_tokens note_source rows_back
    numbered is_resolved scan_source put_place compare_tokens compare_from compare_token remove
    matches_comment matches_spaces find_bb in_bb lookup ranges_of sbids_stalled sbids_stall resolves
    listed waited moves_memory is_dotted base_of waited_in_words is_instruction contains starts_with
    split_on strip text_eq
straight_search = refl
