-- ===== src/Cfg.antt =====
-- `BB`, `ConstructCFG` and `FindBB` of `tools/unitrace/scripts/metrics/analyzeperfmetrics.py`: the
-- basic blocks of a kernel's assembly, read from its comments. An instruction's address is its
-- place in the list of lines. `none` is the `IndexError` of a block comment that is cut short.
pub mod Cover
mod Tests
use pti_gpu_itt_only.Base.{
  ℕ, zero, suc, ◌+◌, ◌-◌, Bool, true, false, ◌&&◌, ◌||◌, List, [], ◌∷◌, ◌++◌, Option, none, some,
  if◌then◌else◌, length, get_elem?, ◌==◌, leb, ◌>>=◌,
}
use pti_gpu_itt_only.Text.{Text, codes, contains, starts_with, strip, split, text_eq}

-- `class BB`
pub record BasicBlock : Type 0 where
  pub bid : Text
  pub head : ℕ
  pub tail : ℕ
  pub preds : List Text
  pub succs : List Text

unfoldable pub in_bb : BasicBlock → ℕ → Bool
in_bb bb ins = leb bb.head ins && leb ins bb.tail

-- Spaces, and then the text: the pattern `" *B"`.
unfoldable pub matches_spaces : Text → Text → Bool
matches_spaces [] rest = starts_with [] rest
matches_spaces (c ∷ s) rest = starts_with (c ∷ s) rest || (c == b' ' && matches_spaces s rest)

-- `re.match("// *" + word, row) is not None`
unfoldable pub matches_comment : Text → Text → Bool
matches_comment (b0 ∷ b1 ∷ s) word = b0 == b'/' && (b1 == b'/' && matches_spaces s word)
matches_comment _ word = false

unfoldable pub opens_block : Text → Bool
opens_block ins =
    matches_comment ins (codes "B")
    && (contains ins (codes "Preds") && contains ins (codes "Succs"))

-- `text.split(sep)[i]`
abbrev pub part : Text → Text → ℕ → Option Text
part text sep i = get_elem? (split text sep) i

-- The names of a list that are not blank, stripped.
unfoldable pub block_names : List Text → List Text
block_names [] = []
block_names (b ∷ bs) = if text_eq (strip b) [] then block_names bs else strip b ∷ block_names bs

-- The names in the braces behind `Preds` or `Succs`.
unfoldable pub names_behind : Text → Text → Option (List Text)
names_behind word ins = do
  behind ← part ins word 1
  opened ← part behind (codes "{") 1
  inside ← part opened (codes "}") 0
  some (block_names (split inside (codes ",")))

pub record Label : Type 0 where
  pub bid : Text
  pub preds : List Text
  pub succs : List Text

unfoldable pub block_label : Text → Option Label
block_label ins = do
  second ← part ins (codes " ") 1
  name ← part second (codes ":") 0
  preds ← names_behind (codes "Preds") ins
  succs ← names_behind (codes "Succs") ins
  some (record { bid = strip name; preds = preds; succs = succs })

-- The dictionary `bbs`, in the order of insertion. A new value for a key that is there takes the
-- place of the old one.
abbrev pub Blocks : Type 0
Blocks = List (Text × BasicBlock)

unfoldable pub insert : Text → BasicBlock → Blocks → Blocks
insert k bb [] = (k, bb) ∷ []
insert k bb ((j, old) ∷ bbs) = if text_eq j k then (j, bb) ∷ bbs else (j, old) ∷ insert k bb bbs

-- The block that is being read, with the address of its first line; none before the first.
abbrev pub OpenBlock : Type 0
OpenBlock = Option (Label × ℕ)

-- `bbs[bb_id] = BB(bb_id, bb_head, tail, preds, succs)`
abbrev pub close_block : OpenBlock → ℕ → Blocks → Blocks
close_block none tail bbs = bbs
close_block (some (l, head)) tail bbs =
    insert l.bid
      (record { bid = l.bid; head = head; tail = tail; preds = l.preds; succs = l.succs }) bbs

-- The loop over the lines from address `addr` on, and the last block behind it.
unfoldable pub read_blocks : List Text → ℕ → OpenBlock → Blocks → Option Blocks
read_blocks [] addr current bbs = some (close_block current (addr - 1) bbs)
read_blocks (ins ∷ rest) addr current bbs = elim (opens_block ins) [
  | true ↦ do
    l ← block_label ins
    read_blocks rest (addr + 1) (some (l, addr)) (close_block current (addr - 1) bbs)
  | false ↦ read_blocks rest (addr + 1) current bbs
]

-- "at least one BB exits"
abbrev pub or_dummy : ℕ → Blocks → Blocks
or_dummy lines [] =
    (
      codes "B000",
      record { bid = codes "B000"; head = 0; tail = lines - 1; preds = []; succs = [] },
    )
    ∷ []
or_dummy lines (b ∷ bbs) = b ∷ bbs

unfoldable pub construct_cfg : List Text → Option Blocks
construct_cfg instructions = do
  bbs ← read_blocks instructions 0 none []
  some (or_dummy (length instructions) bbs)

unfoldable pub find_bb : Blocks → ℕ → Option (Text × BasicBlock)
find_bb [] ins = none
find_bb ((bid, bb) ∷ bbs) ins = if in_bb bb ins then some (bid, bb) else find_bb bbs ins
