-- ===== src/Stalls/Search/Never.antt =====
-- The rows of a block, read for a token that none of them sets.
use pti_gpu_itt_only.Base.{
  ℕ, ◌+◌, ◌-◌, ◌≡◌, ◌∙◌, refl, ap, arith, false, List, [], ◌∷◌, ◌++◌, Option, none, some, slice,
  drop, All, All-take, All-drop, All-reverse,
}
use pti_gpu_itt_only.Text.{Text}
use pti_gpu_itt_only.Stalls.Tokens.{
  compare_tokens, compare_from, compare_token, resolves, sbids_stall,
}
use pti_gpu_itt_only.Stalls.Search.{
  Search, note_source, note_tokens, is_empty, Rows, numbered, rows_back, scan_block,
}

-- The instruction with this text does not set the token.
abbrev pub NeverSets : Text → Text → Type 0
NeverSets token row = All (λ sbid2. resolves row token sbid2 ≡ false) (sbids_stall row)

compare_token_never :
    (pos : ℕ) (row token : Text) (tokens waiting : List Text) (found : List ℕ)
    → All (λ sbid2. resolves row token sbid2 ≡ false) tokens
    → compare_token pos row token tokens waiting found ≡ some (waiting, found)
unfolding compare_token
compare_token_never pos row token [] waiting found h = refl
compare_token_never pos row token (sbid2 ∷ tokens) waiting found (h, hs) =
    rw (h, compare_token) (compare_token_never pos row token tokens waiting found hs)

compare_tokens_never :
    (pos : ℕ) (row token : Text) (found : List ℕ)
    → NeverSets token row
    → compare_tokens pos row (token ∷ []) found ≡ some (token ∷ [], found)
unfolding compare_tokens compare_from
compare_tokens_never pos row token found h =
    ap {B = Option (List Text × List ℕ)}
      (λ r. elim r [
        | none ↦ none
        | some (waiting, found') ↦ compare_from 1 (0 + 1) pos row (sbids_stall row) waiting found'
      ])
      (compare_token_never pos row token (sbids_stall row) (token ∷ []) found h)

note_source-waiting :
    (pos : ℕ) (row : Text) (s : Search) → (note_source pos row s).waiting ≡ s.waiting
unfolding note_source
note_source-waiting pos row s = ground arith

note_tokens_never :
    (pos : ℕ) (row token : Text) (s : Search)
    → NeverSets token row
    → s.waiting ≡ token ∷ []
    → (t : Search) × (note_tokens pos row s ≡ some t) × (t.waiting ≡ token ∷ [])
unfolding note_tokens
note_tokens_never pos row token s h e = (
  record s { waiting = token ∷ []; no_line = s.no_line ++ []; no_file = s.no_file ++ [] },
  ap
        (λ ws. elim (compare_tokens pos row ws []) [
          | none ↦ none
          | some (waiting, found) ↦ some (record s {
            waiting = waiting;
            no_line = s.no_line ++ found;
            no_file = s.no_file ++ found;
          })
        ])
        e
      ∙ rw (compare_tokens_never pos row token [] h),
  refl,
)

abbrev pub RowsNeverSet : Text → Rows → Type 0
RowsNeverSet token rows = All (λ r. NeverSets token r.1) rows

pub is_empty_one : {token : Text} {ws : List Text} → ws ≡ token ∷ [] → is_empty ws ≡ false
is_empty_one e = rw e

pub scan_block_never :
    (rows : Rows) (token : Text) (s : Search)
    → RowsNeverSet token rows
    → s.waiting ≡ token ∷ []
    → (t : Search) × (scan_block rows s ≡ some (t, none)) × (t.waiting ≡ token ∷ [])
unfolding scan_block
scan_block_never [] token s h e = (s, refl, e)
scan_block_never ((pos, row) ∷ rows) token s (h, hs) e =
    let (t, noted, te) = note_tokens_never pos row token s h e in
    let ue : (note_source pos row t).waiting ≡ token ∷ [] = note_source-waiting pos row t ∙ te in
    let (v, rest, ve) = scan_block_never rows token (note_source pos row t) hs ue in
    (v, rw (noted, scan_block) (rw (is_empty_one ue) rest), ve)

numbered_never :
    (token : Text) (n : ℕ) (instructions : List Text)
    → All (NeverSets token) instructions
    → RowsNeverSet token (numbered n instructions)
unfolding numbered
numbered_never token n [] h = tt
numbered_never token n (row ∷ rows) (h, hs) = (h, numbered_never token (n + 1) rows hs)

pub rows_back_never :
    (token : Text) (instructions : List Text) (start stop : ℕ)
    → All (NeverSets token) instructions
    → RowsNeverSet token (rows_back instructions start stop)
unfolding rows_back
rows_back_never token instructions start stop h =
    let P : ℕ × Text → Type 0 = λ r. NeverSets token r.1 in
    let rows : Rows = numbered 0 instructions in
    All-reverse P (slice start stop rows) (
      All-take P (stop - start) (drop start rows)
        (All-drop P start rows (numbered_never token 0 instructions h)))
