-- ===== src/Stalls/Search.antt =====
-- The worklist of blocks, and the rows of one block read backwards.
pub mod Endless
pub mod Never
use mathlib.Core.List.{reverse}
use pti_gpu_itt_only.Base.{
  ℕ, zero, suc, ◌+◌, ◌-◌, Bool, true, false, not, ◌&&◌, ◌||◌, List, [], ◌∷◌, ◌++◌, Option, none,
  some, if◌then◌else◌, length, get_elem?, slice, ◌==◌,
}
use pti_gpu_itt_only.Text.{Text, codes, text_eq}
use pti_gpu_itt_only.Cfg.{BasicBlock, Blocks, matches_comment, find_bb}
use pti_gpu_itt_only.Stalls.Tokens.{compare_tokens, sbids_stalled}

-- A dictionary from positions to positions.
abbrev pub Places : Type 0
Places = List (ℕ × ℕ)

unfoldable pub put_place : ℕ → ℕ → Places → Places
put_place k v [] = (k, v) ∷ []
put_place k v ((j, w) ∷ d) = if j == k then (j, v) ∷ d else (j, w) ∷ put_place k v d

abbrev pub put_places : List ℕ → ℕ → Places → Places
put_places [] v d = d
put_places (k ∷ ks) v d = put_places ks v (put_place k v d)

-- The variables of the search: the tokens waited for, the position of the stalled instruction's
-- source line and file once found, the instructions found whose line or file is not known yet, and
-- those of the others.
pub record Search : Type 0 where
  pub waiting : List Text
  pub line : Option ℕ
  pub file : Option ℕ
  pub no_line : List ℕ
  pub no_file : List ℕ
  pub lines : Places
  pub files : Places

abbrev pub or_first : Option ℕ → ℕ → Option ℕ
or_first none pos = some pos
or_first (some old) pos = some old

-- The two tests for a comment that names a source line or a source file.
unfoldable pub note_source : ℕ → Text → Search → Search
note_source pos row s =
    let t =
      if matches_comment row (codes "Line")
      then record s {
        line = or_first s.line pos;
        no_line = [];
        lines = put_places s.no_line pos s.lines;
      }
      else s in
    if matches_comment row (codes "File")
    then record t {
      file = or_first t.file pos;
      no_file = [];
      files = put_places t.no_file pos t.files;
    }
    else t

-- The comparison of tokens; `none` is an exception.
unfoldable pub note_tokens : ℕ → Text → Search → Option Search
note_tokens pos row s = elim (compare_tokens pos row s.waiting []) [
  | none ↦ none
  | some (waiting, found) ↦
      some
        (record s { waiting = waiting; no_line = s.no_line ++ found; no_file = s.no_file ++ found })
]

abbrev pub is_empty {ℓ} : {A : Type ℓ} → List A → Bool
is_empty [] = true
is_empty (x ∷ xs) = false

abbrev pub is_found : Option ℕ → Bool
is_found none = false
is_found (some _) = true

-- Nothing is left to look up.
unfoldable pub is_resolved : Search → Bool
is_resolved s = is_found s.line && (is_found s.file && (is_empty s.no_line && is_empty s.no_file))

abbrev pub Rows : Type 0
Rows = List (ℕ × Text)

unfoldable pub numbered : ℕ → List Text → Rows
numbered n [] = []
numbered n (row ∷ rows) = (n, row) ∷ numbered (n + 1) rows

-- `enumerate(reversed(instructions[start:stop]))`, with each row's position.
unfoldable pub rows_back : List Text → ℕ → ℕ → Rows
rows_back instructions start stop = reverse (slice start stop (numbered 0 instructions))

-- How the loop over a block's rows ends: the variables, and the position of the `break`.
abbrev pub BlockEnd : Type 0
BlockEnd = Search × Option ℕ

-- One row: the tokens, the comments, and whether the loop breaks.
unfoldable pub scan_block : Rows → Search → Option BlockEnd
scan_block [] s = some (s, none)
scan_block ((pos, row) ∷ rows) s = elim (note_tokens pos row s) [
  | none ↦ none
  | some t ↦
      let u = note_source pos row t in
      let rest = scan_block rows u in if is_empty u.waiting then some (u, some pos) else rest
]

unfoldable pub scan_source : Rows → Search → Search
scan_source [] s = s
scan_source ((pos, row) ∷ rows) s = scan_source rows (note_source pos row s)

-- A range of rows of a block: the block's name, the first row and the place behind the last.
abbrev pub Range : Type 0
Range = Text × ℕ × ℕ

unfoldable pub lookup : Text → Blocks → Option BasicBlock
lookup k [] = none
lookup k ((j, bb) ∷ bbs) = if text_eq j k then some bb else lookup k bbs

-- The ranges of the blocks named; `none` is the `KeyError` of a block that is not there.
unfoldable pub ranges_of : Blocks → List Text → Option (List Range)
ranges_of bbs [] = some []
ranges_of bbs (b ∷ bs) = elim (lookup b bbs) [
  | none ↦ none
  | some bb ↦ elim (ranges_of bbs bs) [
    | none ↦ none
    | some rest ↦ some ((b, bb.head, bb.tail + 1) ∷ rest)
  ]
]

-- How the search ends: with the variables, with an exception, or not within the fuel.
pub data Outcome : Type 0 where
  finished : Search → Outcome
  raised : Outcome
  out_of_fuel : Outcome

-- What the loop over a block's rows is followed by: the search is over, or goes on in the blocks
-- before this one.
pub data Next : Type 0 where
  stop_at : Search → Next
  go_on : List Range → Search → Next
  fail : Next

module _ (instructions : List Text) (bbs : Blocks) (source_available : Bool) where
  -- `end` where the loop over the rows did not break: the row before `stop`. Before row 0 there is
  -- row -1, the last one.
  abbrev pub break_at : Option ℕ → ℕ → ℕ
  break_at (some pos) stop = pos
  break_at none zero = length instructions - 1
  break_at none (suc stop) = stop

  unfoldable pub after_block : Text → ℕ → BlockEnd → Next
  after_block bid stop (s, broke) =
      if is_found broke && (not source_available || is_resolved s)
      then stop_at s
      else if is_empty s.waiting
      then stop_at (scan_source (rows_back instructions 0 (break_at broke stop)) s)
      else elim (lookup bid bbs) [
        | none ↦ fail
        | some bb ↦ elim (ranges_of bbs bb.preds) [ none ↦ fail | some more ↦ go_on more s ]
      ]

  unfoldable pub visit : Range → Search → Next
  visit (bid, start, stop) s = elim (scan_block (rows_back instructions start stop) s) [
    | none ↦ fail
    | some end ↦ after_block bid stop end
  ]

  -- The `while` loop over `bbs_to_check`, of which the list holds the part not yet checked.
  unfoldable pub search_blocks : ℕ → List Range → Search → Outcome
  search_blocks zero queue s = out_of_fuel
  search_blocks (suc fuel) [] s = finished s
  search_blocks (suc fuel) (range ∷ queue) s = elim (visit range s) [
    | stop_at t ↦ finished t
    | go_on more t ↦ search_blocks fuel (queue ++ more) t
    | fail ↦ raised
  ]

  -- The search for the stalled instruction `ins` at `addr`.
  unfoldable pub search_stall : ℕ → ℕ → Text → Outcome
  search_stall fuel addr ins = elim (find_bb bbs addr) [
    | none ↦ raised
    | some (bid, bb) ↦ search_blocks fuel ((bid, bb.head, addr) ∷ []) (record {
      waiting = sbids_stalled ins;
      line = none;
      file = none;
      no_line = [];
      no_file = [];
      lines = [];
      files = [];
    })
  ]
