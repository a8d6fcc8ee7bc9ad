-- ===== src/Summary/Tags/Ended.antt =====
-- The node of `build_search_tree` at a key where no longer tag goes on, and what a search owes to the tags.

use pti_gpu_itt_only.Base.{
  ℕ, zero, suc, ◌+◌, ◌≤◌, ◌≡◌, ◌∙◌, refl, sym, ap, arith, Bool, true, false, List, [], ◌∷◌, Option,
  none, some, length, inl, inr, ◌⊎◌, Option-cases,
}
use pti_gpu_itt_only.Text.{Text, text_eq}
use pti_gpu_itt_only.Summary.{
  Tree, node, Children, child_of, Found, found, key_error, search_tree, exact_category,
}
use pti_gpu_itt_only.Summary.Tags.{Tag, end_node}
use pti_gpu_itt_only.Summary.Tags.Walk.{
  last_empty, longer, ending, passing, walk, IsCutShort, walk_none, walk-longer,
}

-- A search's result for a name, by the tags.
abbrev pub Agrees : List Tag → Text → Option Text → Found → Type 0
Agrees tags name category result =
    (result ≡ found (walk tags category name)) ⊎ ((result ≡ key_error) × IsCutShort tags name)

-- The tree finds, with fuel for the name, what the tags say.
abbrev pub Finds : List Tag → Tree → Type 0
Finds tags tree =
    (fuel : ℕ) (name : Text) (category : Option Text)
    → length name + 1 ≤ fuel
    → Agrees tags name category (search_tree fuel tree name category)

-- A built tree: a node with a key length and without the empty key.
pub record Built (tags : List Tag) (tree : Tree) : Type 0 where
  pub key_length : ℕ
  pub children : Children
  pub is_node : tree ≡ node none (some key_length) children
  pub is_keyed : 1 ≤ key_length
  pub no_exact : child_of [] children ≡ none
  pub finds : Finds tags tree

pub longer_nil : (tags : List Tag) → longer tags ≡ [] → last_empty tags ≡ none → tags ≡ []
longer_nil [] h e = refl
longer_nil (([], category, is_exact) ∷ tags) h e = elim (Option-cases (last_empty tags)) [
  | inl k ↦ absurd (ground (arith, k, e))
  | inr (later, k) ↦ absurd (ground (arith, k, e))
]
longer_nil ((c ∷ text, category, is_exact) ∷ tags) h e = absurd (ground arith)

pub last_empty-cases :
    (tags : List Tag)
    → (last_empty tags ≡ none)
      ⊎ ((own : Text) × ((last_empty tags ≡ some (own, false))
            ⊎ (last_empty tags ≡ some (own, true))))
last_empty-cases tags = elim (Option-cases (last_empty tags)) [
  | inl e ↦ inl e
  | inr ((own, false), e) ↦ inr (own, inl e)
  | inr ((own, true), e) ↦ inr (own, inr e)
]

abbrev by_name : Text → Option Text → Option Text → Option Text
by_name [] here further = here
by_name (x ∷ name) here further = further

walk_ended :
    (tags : List Tag) (name : Text) (category : Option Text)
    → longer tags ≡ []
    → walk tags category name
      ≡ by_name name (ending (last_empty tags) category) (passing (last_empty tags) category)
unfolding walk
walk_ended tags [] category h = refl
walk_ended tags (x ∷ name) category h =
    walk-longer x name tags category
    ∙ (rw h (walk_none (x ∷ name) (passing (last_empty tags) category)))

search_tree-end_node :
    (fuel : ℕ) (own : Text) (is_exact : Bool) (name : Text) (category : Option Text)
    → search_tree (suc fuel) (end_node own is_exact) name category
      ≡ found (by_name name (some own) (passing (some (own, is_exact)) category))
unfolding search_tree exact_category child_of text_eq
search_tree-end_node fuel own true [] category = refl
search_tree-end_node fuel own false [] category = refl
search_tree-end_node fuel own true (c ∷ name) category = refl
search_tree-end_node fuel own false (c ∷ name) category = refl

-- The node of a tag that ends at the key, where no longer tag goes on.
pub end_node-Agrees :
    (tags : List Tag) (own : Text) (is_exact : Bool) (fuel : ℕ) (name : Text)
    (category : Option Text)
    → longer tags ≡ []
    → last_empty tags ≡ some (own, is_exact)
    → length name + 1 ≤ fuel
    → search_tree fuel (end_node own is_exact) name category ≡ found (walk tags category name)
end_node-Agrees tags own is_exact zero name category h e enough = absurd (omega arith)
end_node-Agrees tags own is_exact (suc fuel) name category h e enough =
    search_tree-end_node fuel own is_exact name category
    ∙ ap found (
        sym (
          walk_ended tags name category h
          ∙ ap (λ l. by_name name (ending l category) (passing l category)) e))
