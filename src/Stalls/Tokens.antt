-- ===== src/Stalls/Tokens.antt =====
-- The scoreboard tokens of an instruction, and the step that compares those of an instruction with
-- the tokens that are waited for.
use pti_gpu_itt_only.Base.{
  ℕ, zero, suc, ◌+◌, Bool, true, false, not, ◌&&◌, ◌||◌, List, [], ◌∷◌, ◌++◌, Option, none, some,
  if◌then◌else◌, length, get_elem?, ltb,
}
use pti_gpu_itt_only.Text.{Text, codes, contains, starts_with, split, text_eq}
use pti_gpu_itt_only.Asm.{is_instruction}

-- The tokens of `text.split(close)[0].split(",")`.
unfoldable pub listed : Text → Text → List Text
listed text close = elim (split text close) [ [] ↦ [] | w ∷ ws ↦ split w (codes ",") ]

abbrev pub is_token : Text → Bool
is_token token = starts_with token (codes "$")

-- `len(token.split(".")) > 1`
unfoldable pub is_dotted : Text → Bool
is_dotted token = ltb 1 (length (split token (codes ".")))

-- `token.split(".")[0]`
unfoldable pub base_of : Text → Text
base_of token = elim (split token (codes ".")) [ [] ↦ [] | w ∷ ws ↦ w ]

unfoldable pub moves_memory : Text → Bool
moves_memory ins =
    contains ins (codes "load")
    || (contains ins (codes "store") || (contains ins (codes "send") || contains ins (codes "EOT")))

-- The tokens among these that the instruction waits for: all of them, but only those with `.src`
-- or `.dst` if it moves memory.
unfoldable pub waited : Text → List Text → List Text
waited ins [] = []
waited ins (token ∷ tokens) =
    let rest = waited ins tokens in
    if is_token token && (not (moves_memory ins) || is_dotted token) then token ∷ rest else rest

abbrev pub any_token : List Text → Bool
any_token [] = false
any_token (token ∷ tokens) = is_token token || any_token tokens

-- The `while` loop over the words behind the first bracket: it stops behind a word with a token.
unfoldable pub waited_in_words : Text → List Text → List Text
waited_in_words ins [] = []
waited_in_words ins (w ∷ ws) =
    let tokens = listed w (codes ")") in
    let rest = waited_in_words ins ws in
    waited ins tokens ++ (if any_token tokens then [] else rest)

abbrev pub behind_first : List Text → List Text
behind_first [] = []
behind_first (w ∷ ws) = ws

abbrev pub or_else : List Text → List Text → List Text
or_else [] other = other
or_else (token ∷ tokens) other = token ∷ tokens

-- `sbids_stalled`: the tokens in the braces, or else those in the brackets.
unfoldable pub sbids_stalled : Text → List Text
sbids_stalled ins =
    or_else
      (elim (behind_first (split ins (codes "{"))) [
        | [] ↦ []
        | w ∷ ws ↦ waited ins (listed w (codes "}"))
      ])
      (waited_in_words ins (behind_first (split ins (codes "("))))

abbrev pub only_tokens : List Text → List Text
only_tokens [] = []
only_tokens (token ∷ tokens) =
    if is_token token then token ∷ only_tokens tokens else only_tokens tokens

-- `re.match(r"/\* *\[", row)`
abbrev pub spaces_then_bracket : Text → Bool
spaces_then_bracket [] = false
spaces_then_bracket (c ∷ s) =
    starts_with (c ∷ s) (codes "[") || (starts_with (c ∷ s) (codes " ") && spaces_then_bracket s)

abbrev pub has_address : Text → Bool
has_address (a ∷ b ∷ s) = starts_with (a ∷ b ∷ s) (codes "/*") && spaces_then_bracket s
has_address _ = false

-- `sbids_stall`: the tokens that an instruction with an address sets.
unfoldable pub sbids_stall : Text → List Text
sbids_stall ins =
    if is_instruction ins && has_address ins
    then elim (behind_first (split ins (codes "{"))) [
      | [] ↦ []
      | w ∷ ws ↦ only_tokens (listed w (codes "}"))
    ]
    else []

-- Whether the instruction with this text sets `sbid` by its token `sbid2`.
unfoldable pub resolves : Text → Text → Text → Bool
resolves ins2 sbid sbid2 =
    if is_dotted sbid
    then text_eq sbid2 (base_of sbid)
    else text_eq sbid (base_of sbid2) && (text_eq sbid sbid2 && not (contains ins2 (codes "sync.")))

-- `sbids_stalled.remove(sbid)`; `none` is the `ValueError` of a token that is not there.
unfoldable pub remove : Text → List Text → Option (List Text)
remove sbid [] = none
remove sbid (x ∷ xs) =
    let rest = remove sbid xs in
    if text_eq x sbid then some xs else elim rest [ none ↦ none | some ys ↦ some (x ∷ ys) ]

-- The inner loop over `sbids_stall`. The list grows by the position for each token that is found.
unfoldable pub compare_token :
    ℕ → Text → Text → List Text → List Text → List ℕ → Option (List Text × List ℕ)
compare_token pos ins2 sbid [] waiting found = some (waiting, found)
compare_token pos ins2 sbid (sbid2 ∷ rest) waiting found = elim (resolves ins2 sbid sbid2) [
  | false ↦ compare_token pos ins2 sbid rest waiting found
  | true ↦ elim (remove sbid waiting) [
    | none ↦ none
    | some waiting' ↦ compare_token pos ins2 sbid rest waiting' (found ++ (pos ∷ []))
  ]
]

-- The outer loop `for sbid in sbids_stalled`. Python's loop goes by the place in the list, which
-- shrinks meanwhile; it never grows, so one more than its length is fuel enough.
unfoldable pub compare_from :
    ℕ → ℕ → ℕ → Text → List Text → List Text → List ℕ → Option (List Text × List ℕ)
compare_from zero i pos ins2 tokens waiting found = some (waiting, found)
compare_from (suc fuel) i pos ins2 tokens waiting found = elim (get_elem? waiting i) [
  | none ↦ some (waiting, found)
  | some sbid ↦ elim (compare_token pos ins2 sbid tokens waiting found) [
    | none ↦ none
    | some (waiting', found') ↦ compare_from fuel (i + 1) pos ins2 tokens waiting' found'
  ]
]

unfoldable pub compare_tokens : ℕ → Text → List Text → List ℕ → Option (List Text × List ℕ)
compare_tokens pos ins2 waiting found =
    compare_from (length waiting + 1) 0 pos ins2 (sbids_stall ins2) waiting found
