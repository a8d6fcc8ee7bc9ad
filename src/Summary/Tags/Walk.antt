-- ===== src/Summary/Tags/Walk.antt =====
-- What a list of tags says of a name, character by character, without a tree.
use pti_gpu_itt_only.Base.{
  ℕ, zero, suc, ◌≤◌, ◌<◌, ◌≡◌, ◌∙◌, refl, sym, ap, arith, Bool, true, false, List, [], ◌∷◌, ◌++◌,
  Option, none, some, if◌then◌else◌, length, take, drop, All, ◌==◌, Bool-cases, inl, inr,
}
use pti_gpu_itt_only.Text.{Text, text_eq}
use pti_gpu_itt_only.Summary.Tags.{Tag}

-- The last tag of the list that is empty: its category, and whether it is exact.
abbrev pub last_empty : List Tag → Option (Text × Bool)
last_empty [] = none
last_empty (([], category, is_exact) ∷ tags) = elim (last_empty tags) [
  | none ↦ some (category, is_exact)
  | some later ↦ some later
]
last_empty ((c ∷ text, category, is_exact) ∷ tags) = last_empty tags

-- The tags that begin with a character, without it.
abbrev pub after : ℕ → List Tag → List Tag
after x [] = []
after x (([], category, is_exact) ∷ tags) = after x tags
after x ((c ∷ text, category, is_exact) ∷ tags) =
    if c == x then (text, category, is_exact) ∷ after x tags else after x tags

-- The tags that are not empty.
abbrev pub longer : List Tag → List Tag
longer [] = []
longer (([], category, is_exact) ∷ tags) = longer tags
longer ((c ∷ text, category, is_exact) ∷ tags) = (c ∷ text, category, is_exact) ∷ longer tags

-- The category where the name ends at a tag.
abbrev pub ending : Option (Text × Bool) → Option Text → Option Text
ending none category = category
ending (some (own, is_exact)) category = some own

-- The category where the name goes on behind a tag, which counts unless it is exact.
abbrev pub passing : Option (Text × Bool) → Option Text → Option Text
passing none category = category
passing (some (own, false)) category = some own
passing (some (own, true)) category = category

-- The category of a name by these tags: that of the tag which is the whole name, or else of the
-- longest tag that begins the name and need not be the whole of it, or else the one given.
unfoldable pub walk : List Tag → Option Text → Text → Option Text
walk tags category [] = ending (last_empty tags) category
walk tags category (x ∷ name) = walk (after x tags) (passing (last_empty tags) category) name

abbrev pub IsNotExact : Option (Text × Bool) → Type 0
IsNotExact none = Unit
IsNotExact (some (own, is_exact)) = is_exact ≡ false

-- Some tag is the name and more, and none that counts is exactly the name.
unfoldable pub IsCutShort : List Tag → Text → Type 0
IsCutShort tags [] = (1 ≤ length (longer tags)) × IsNotExact (last_empty tags)
IsCutShort tags (x ∷ name) = IsCutShort (after x tags) name

-- The tags that begin with `key`, of length `k`, without it.
abbrev pub under : ℕ → Text → List Tag → List Tag
under k key [] = []
under k key ((text, category, is_exact) ∷ tags) =
    if text_eq (take k text) key
    then (drop k text, category, is_exact) ∷ under k key tags
    else under k key tags

abbrev pub AreLong : ℕ → List Tag → Type 0
AreLong k tags = All {A = Tag} (λ tag. k ≤ length tag.0) tags

last_empty-longer : (tags : List Tag) → last_empty (longer tags) ≡ none
last_empty-longer [] = refl
last_empty-longer (([], category, is_exact) ∷ tags) = last_empty-longer tags
last_empty-longer ((c ∷ text, category, is_exact) ∷ tags) = last_empty-longer tags

pub last_empty-AreLong : (k : ℕ) (tags : List Tag) → AreLong (suc k) tags → last_empty tags ≡ none
last_empty-AreLong k [] h = refl
last_empty-AreLong k (([], category, is_exact) ∷ tags) (h, hs) = absurd (omega arith)
last_empty-AreLong k ((c ∷ text, category, is_exact) ∷ tags) (h, hs) = last_empty-AreLong k tags hs

after-longer : (x : ℕ) (tags : List Tag) → after x (longer tags) ≡ after x tags
after-longer x [] = refl
after-longer x (([], category, is_exact) ∷ tags) = after-longer x tags
after-longer x ((c ∷ text, category, is_exact) ∷ tags) = ground (arith, after-longer x tags)

after-AreLong : (k x : ℕ) (tags : List Tag) → AreLong (suc k) tags → AreLong k (after x tags)
after-AreLong k x [] h = tt
after-AreLong k x (([], category, is_exact) ∷ tags) (h, hs) = after-AreLong k x tags hs
after-AreLong k x ((c ∷ text, category, is_exact) ∷ tags) (h, hs) = elim (Bool-cases (c == x)) [
  | inl e ↦ rw e (omega arith, after-AreLong k x tags hs)
  | inr e ↦ rw e (after-AreLong k x tags hs)
]

under-after :
    (k x : ℕ) (key : Text) (tags : List Tag)
    → AreLong (suc k) tags
    → under (suc k) (x ∷ key) tags ≡ under k key (after x tags)
unfolding text_eq
under-after k x key [] h = refl
under-after k x key (([], category, is_exact) ∷ tags) (h, hs) = absurd (omega arith)
under-after k x key ((c ∷ text, category, is_exact) ∷ tags) (h, hs) = elim (Bool-cases (c == x)) [
  | inl e ↦ rw e (
      ap
        (λ rest.
          if text_eq (take k text) key then (drop k text, category, is_exact) ∷ rest else rest)
        (under-after k x key tags hs))
  | inr e ↦ rw e (under-after k x key tags hs)
]

under_zero : (tags : List Tag) → under 0 [] tags ≡ tags
unfolding text_eq
under_zero [] = refl
under_zero (tag ∷ tags) = ap (◌∷◌ tag) (under_zero tags)

-- Walking by tags of a key's length at least: past the key, only the tags under it count.
pub walk-under :
    (k : ℕ) (key name : Text) (tags : List Tag) (category : Option Text)
    → length key ≡ k
    → AreLong k tags
    → walk tags category (key ++ name) ≡ walk (under k key tags) category name
unfolding walk
walk-under zero [] name tags category h long =
    ap (λ ts. walk ts category name) (sym (under_zero tags))
walk-under (suc k) [] name tags category h long = absurd (omega arith)
walk-under zero (x ∷ key) name tags category h long = absurd (omega arith)
walk-under (suc k) (x ∷ key) name tags category h long =
    ap (λ e. walk (after x tags) (passing e category) (key ++ name))
      (last_empty-AreLong k tags long)
    ∙ (walk-under k key name (after x tags) category (omega arith) (after-AreLong k x tags long)
        ∙ ap (λ ts. walk ts category name) (sym (under-after k x key tags long)))

-- A name shorter than all tags.
pub walk_short :
    (k : ℕ) (name : Text) (tags : List Tag) (category : Option Text)
    → length name < k
    → AreLong k tags
    → walk tags category name ≡ category
unfolding walk
walk_short zero name tags category h long = absurd (omega arith)
walk_short (suc k) [] tags category h long = rw (last_empty-AreLong k tags long) refl
walk_short (suc k) (x ∷ name) tags category h long =
    rw (last_empty-AreLong k tags long)
      (walk_short k name (after x tags) category (omega arith) (after-AreLong k x tags long))

pub IsCutShort-under :
    (k : ℕ) (key name : Text) (tags : List Tag)
    → length key ≡ k
    → AreLong k tags
    → IsCutShort (under k key tags) name
    → IsCutShort tags (key ++ name)
unfolding IsCutShort
IsCutShort-under zero [] name tags h long cut = rw (← under_zero tags) cut
IsCutShort-under (suc k) [] name tags h long cut = absurd (omega arith)
IsCutShort-under zero (x ∷ key) name tags h long cut = absurd (omega arith)
IsCutShort-under (suc k) (x ∷ key) name tags h long cut =
    IsCutShort-under k key name (after x tags) (omega arith) (after-AreLong k x tags long)
      (rw (under-after k x key tags long) at cut)

-- Without tags the category stays.
pub walk_none : (name : Text) (category : Option Text) → walk [] category name ≡ category
unfolding walk
walk_none [] category = refl
walk_none (x ∷ name) category = walk_none name category

pub walk-longer :
    (x : ℕ) (name : Text) (tags : List Tag) (category : Option Text)
    → walk tags category (x ∷ name)
      ≡ walk (longer tags) (passing (last_empty tags) category) (x ∷ name)
unfolding walk
walk-longer x name tags category = rw (last_empty-longer tags, after-longer x tags) refl

pub IsCutShort-longer :
    (x : ℕ) (name : Text) (tags : List Tag)
    → IsCutShort (longer tags) (x ∷ name)
    → IsCutShort tags (x ∷ name)
unfolding IsCutShort
IsCutShort-longer x name tags cut = rw (after-longer x tags) at cut
