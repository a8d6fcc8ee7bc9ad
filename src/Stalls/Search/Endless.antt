-- ===== src/Stalls/Search/Endless.antt =====
-- The search of `AnalyzeStalls` for a token that no instruction sets.

use pti_gpu_itt_only.Base.{
  ℕ, zero, suc, ◌+◌, ◌≡◌, ◌∙◌, refl, sym, ap, arith, Bool, List, [], ◌∷◌, ◌++◌, none, some, All,
  All-append, inl, inr, Bool-cases, Option-cases,
}
use pti_gpu_itt_only.Text.{Text, text_eq}
use pti_gpu_itt_only.Cfg.{BasicBlock, Blocks, find_bb}
use pti_gpu_itt_only.Stalls.Tokens.{sbids_stalled}
use pti_gpu_itt_only.Stalls.Search.Never.{
  NeverSets, scan_block_never, rows_back_never, is_empty_one,
}
use pti_gpu_itt_only.Stalls.Search.{
  Search, rows_back, Range, lookup, ranges_of, out_of_fuel, go_on, after_block, visit,
  search_blocks, search_stall,
}

-- A range whose block is there.
abbrev Known : Blocks → Range → Type 0
Known bbs range = (bb : BasicBlock) × (lookup range.0 bbs ≡ some bb)

-- The block has predecessors, and all of them are there.
abbrev pub HasPreds : Blocks → Text × BasicBlock → Type 0
HasPreds bbs entry =
    (range : Range) × (more : List Range) × (ranges_of bbs entry.1.preds ≡ some (range ∷ more))

ranges_of-Known :
    (bbs : Blocks) (names : List Text) (ranges : List Range)
    → ranges_of bbs names ≡ some ranges
    → All (Known bbs) ranges
unfolding ranges_of
ranges_of-Known bbs [] ranges e = let same : [] ≡ ranges = cc e in rw (← same) tt
ranges_of-Known bbs (b ∷ bs) ranges e = elim (Option-cases (lookup b bbs)) [
  | inl h ↦ absurd (ground arith)
  | inr (bb, h) ↦ elim (Option-cases (ranges_of bbs bs)) [
    | inl k ↦ absurd (ground arith)
    | inr (rest, k) ↦
        let same : (b, bb.head, bb.tail + 1) ∷ rest ≡ ranges = ground arith in
        rw (← same) ((bb, h), ranges_of-Known bbs bs rest k)
  ]
]

lookup-HasPreds :
    (bbs some_bbs : Blocks) (bid : Text) (bb : BasicBlock)
    → All (HasPreds bbs) some_bbs
    → lookup bid some_bbs ≡ some bb
    → HasPreds bbs (bid, bb)
unfolding lookup
lookup-HasPreds bbs [] bid bb h found = absurd (ground arith)
lookup-HasPreds bbs ((j, bb') ∷ some_bbs) bid bb ((range, more, r), hs) found =
    elim (Bool-cases (text_eq j bid)) [
      | inl same ↦
          let this : bb' ≡ bb = ground arith in
          (range, more, ap (λ b. ranges_of bbs (BasicBlock.preds b)) (sym this) ∙ r)
      | inr differs ↦ lookup-HasPreds bbs some_bbs bid bb hs (ground arith)
    ]

module _ (instructions : List Text) (bbs : Blocks) (source_available : Bool) (token : Text) where
  after_block_never :
      (bid : Text) (stop : ℕ) (s : Search)
      → s.waiting ≡ token ∷ []
      → Known bbs (bid, 0, stop)
      → All (HasPreds bbs) bbs
      → (range : Range) × (more : List Range) × (after_block instructions bbs source_available bid
            stop
            (s, none)
          ≡ go_on (range ∷ more) s)
        × All (Known bbs) (range ∷ more)
  unfolding after_block
  after_block_never bid stop s e (bb, k) preds =
      let (range, more, r) = lookup-HasPreds bbs bbs bid bb preds k in
      (range, more, rw (is_empty_one e, k, r), ranges_of-Known bbs bb.preds (range ∷ more) r)

  visit_never :
      (range : Range) (s : Search)
      → All (NeverSets token) instructions
      → s.waiting ≡ token ∷ []
      → Known bbs range
      → All (HasPreds bbs) bbs
      → (next : Range) × (more : List Range) × (t : Search) × (visit instructions bbs
            source_available range s
          ≡ go_on (next ∷ more) t)
        × All (Known bbs) (next ∷ more)
        × (t.waiting ≡ token ∷ [])
  unfolding visit
  visit_never (bid, start, stop) s h e (bb, k) preds =
      let (t, scanned, te) =
        scan_block_never (rows_back instructions start stop) token s
          (rows_back_never token instructions start stop h) e in
      let (next, more, r, known) = after_block_never bid stop t te (bb, k) preds in
      (next, more, t, rw (scanned, visit) r, known, te)

  search_blocks_never :
      (fuel : ℕ) (range : Range) (queue : List Range) (s : Search)
      → All (NeverSets token) instructions
      → s.waiting ≡ token ∷ []
      → All (Known bbs) (range ∷ queue)
      → All (HasPreds bbs) bbs
      → search_blocks instructions bbs source_available fuel (range ∷ queue) s ≡ out_of_fuel
  unfolding search_blocks
  search_blocks_never zero range queue s h e known preds = refl
  search_blocks_never (suc fuel) range [] s h e (k, ks) preds =
      let (next, more, t, v, known, te) = visit_never range s h e k preds in
      rw (v, search_blocks) (search_blocks_never fuel next more t h te known preds)
  search_blocks_never (suc fuel) range (next ∷ queue) s h e (k, (k', ks)) preds =
      let (found, more, t, v, known, te) = visit_never range s h e k preds in
      rw (v, search_blocks)
        (search_blocks_never fuel next (queue ++ found ∷ more) t h te
          (k', All-append (Known bbs) queue (found ∷ more) ks known) preds)

  -- Take an assembly listing whose blocks all have predecessors, all of them blocks of the table,
  -- and a stalled instruction, in one of these blocks, that waits for a single token which no
  -- instruction sets. Then the search for what it waits for does not end within any number of
  -- rounds: it goes round the blocks for ever.
  pub search_stall-out_of_fuel :
      (fuel addr : ℕ) (ins bid : Text) (bb known_bb : BasicBlock)
      → find_bb bbs addr ≡ some (bid, bb)
      → lookup bid bbs ≡ some known_bb
      → sbids_stalled ins ≡ token ∷ []
      → All (NeverSets token) instructions
      → All (HasPreds bbs) bbs
      → search_stall instructions bbs source_available fuel addr ins ≡ out_of_fuel
  unfolding search_stall
  search_stall-out_of_fuel fuel addr ins bid bb known_bb found known one never preds =
      rw (found, search_stall)
        (search_blocks_never fuel (bid, bb.head, addr) []
          (record {
            waiting = sbids_stalled ins;
            line = none;
            file = none;
            no_line = [];
            no_file = [];
            lines = [];
            files = [];
          })
          never one ((known_bb, known), tt) preds)
