-- ===== src/Summary/Tags/Least.antt =====
-- The key length of `build_search_tree`, and how many tags are left behind a key.

use pti_gpu_itt_only.Base.{
  ℕ, suc, ◌≤◌, ◌≡◌, refl, ap, arith, List, [], ◌∷◌, length, take, drop, drop_all, ltb-cases,
  Bool-cases, inl, inr,
}
use pti_gpu_itt_only.Text.{Text, text_eq}
use pti_gpu_itt_only.Summary.Tags.{Tag, key_length}
use pti_gpu_itt_only.Summary.Tags.Walk.{longer, under, AreLong}

pub key_length-AreLong : (tag : Tag) (tags : List Tag) → AreLong (key_length tag tags) (tag ∷ tags)
unfolding key_length
key_length-AreLong tag [] = (omega arith, tt)
key_length-AreLong tag (other ∷ tags) = (
  omega arith,
  weaker (key_length other tags) (other ∷ tags) (omega arith) (key_length-AreLong other tags),
)
  where
    weaker :
        (k : ℕ) (ts : List Tag)
        → key_length tag (other ∷ tags) ≤ k
        → AreLong k ts
        → AreLong (key_length tag (other ∷ tags)) ts
    weaker k [] h long = tt
    weaker k (t ∷ ts) h (l, long) = (omega arith, weaker k ts h long)

pub key_length-least :
    (m : ℕ) (tag : Tag) (tags : List Tag) → AreLong m (tag ∷ tags) → m ≤ key_length tag tags
unfolding key_length
key_length-least m tag [] (h, hs) = h
key_length-least m tag (other ∷ tags) (h, hs) = omega (arith, key_length-least m other tags hs)

pub longer-AreLong : (tags : List Tag) → AreLong 1 (longer tags)
longer-AreLong [] = tt
longer-AreLong (([], category, is_exact) ∷ tags) = longer-AreLong tags
longer-AreLong ((c ∷ text, category, is_exact) ∷ tags) = (omega arith, longer-AreLong tags)

length-longer : (tags : List Tag) → length (longer tags) ≤ length tags
length-longer [] = omega arith
length-longer (([], category, is_exact) ∷ tags) = omega (arith, length-longer tags)
length-longer ((c ∷ text, category, is_exact) ∷ tags) = omega (arith, length-longer tags)

pub longer-all : (tags : List Tag) → AreLong 1 tags → longer tags ≡ tags
longer-all [] h = refl
longer-all (([], category, is_exact) ∷ tags) (h, hs) = absurd (omega arith)
longer-all ((c ∷ text, category, is_exact) ∷ tags) (h, hs) =
    ap (◌∷◌ (c ∷ text, category, is_exact)) (longer-all tags hs)

length-longer-cons :
    (tag : Tag) (tags : List Tag) → length (longer (tag ∷ tags)) ≤ suc (length (longer tags))
length-longer-cons ([], category, is_exact) tags = omega arith
length-longer-cons (c ∷ text, category, is_exact) tags = omega arith

longer-under-step :
    (k : ℕ) (key : Text) (tag : Tag) (tags : List Tag)
    → length (longer (under k key (tag ∷ tags))) ≤ suc (length (longer (under k key tags)))
longer-under-step k key (text, category, is_exact) tags =
    elim (Bool-cases (text_eq (take k text) key)) [
      | inl e ↦ rw e (length-longer-cons (drop k text, category, is_exact) (under k key tags))
      | inr e ↦ rw e (omega arith)
    ]

length-longer-under :
    (k : ℕ) (key : Text) (tags : List Tag) → length (longer (under k key tags)) ≤ length tags
length-longer-under k key [] = omega arith
length-longer-under k key (tag ∷ tags) =
    omega (arith, longer-under-step k key tag tags, length-longer-under k key tags)

longer-under-ended :
    (k : ℕ) (key : Text) (tag : Tag) (tags : List Tag)
    → length tag.0 ≤ k
    → length (longer (under k key (tag ∷ tags))) ≤ length (longer (under k key tags))
longer-under-ended k key (text, category, is_exact) tags h =
    elim (Bool-cases (text_eq (take k text) key)) [
      | inl e ↦ rw e (rw (drop_all k text h) (omega arith))
      | inr e ↦ rw e (omega arith)
    ]

-- A tag of the least length has no rest.
pub longer-shrinks :
    (k : ℕ) (key : Text) (tag : Tag) (tags : List Tag)
    → key_length tag tags ≤ k
    → length (longer (under k key (tag ∷ tags))) ≤ length tags
unfolding key_length
longer-shrinks k key tag [] h = omega (arith, longer-under-ended k key tag [] h)
longer-shrinks k key tag (other ∷ tags) h = elim (ltb-cases k (length tag.0)) [
  | inl (e, more) ↦ omega (
    arith,
    longer-under-step k key tag (other ∷ tags),
    longer-shrinks k key other tags (omega arith),
  )
  | inr (e, less) ↦ omega (
    arith,
    longer-under-ended k key tag (other ∷ tags) less,
    length-longer-under k key (other ∷ tags),
  )
]
