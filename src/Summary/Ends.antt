-- ===== src/Summary/Ends.antt =====
-- The rounds of `search_tree`, of `tools/unitrace/scripts/summary/summary.py`, are no more than the
-- name's characters.
use mathlib.Core.List.{reverse}
use pti_gpu_itt_only.Base.{
  ℕ, zero, suc, ◌+◌, ◌<◌, ◌≡◌, ◌≢◌, ◌⊎◌, refl, inl, inr, arith, [], ◌∷◌, Option, none, some, length,
  take, drop, ltb, length-drop, length-reverse, Option-cases, Bool-cases,
}
use pti_gpu_itt_only.Text.{Text, text_eq}
use pti_gpu_itt_only.Summary.{
  Tree, leaf, node, Children, no_child, child, child_of, Found, found, key_error, out_of_fuel,
  category_of, exact_category, or_category, search_tree, categorize,
}

-- No key length is 0.
abbrev pub IsPositive : Option ℕ → Type 0
IsPositive none = Unit
IsPositive (some n) = 0 < n

unfoldable mutual
  pub HasKeys : Tree → Type 0
  HasKeys (leaf own key_length) = Unit
  HasKeys (node own key_length children) = IsPositive key_length × HaveKeys children

  pub HaveKeys : Children → Type 0
  HaveKeys no_child = Unit
  HaveKeys (child key tree children) = HasKeys tree × HaveKeys children

child_of-HasKeys :
    (key : Text) (children : Children) (tree : Tree)
    → child_of key children ≡ some tree
    → HaveKeys children
    → HasKeys tree
unfolding child_of HaveKeys
child_of-HasKeys key no_child tree h keys = absurd (ground arith)
child_of-HasKeys key (child other first children) tree h (keys, later) =
    elim (Bool-cases (text_eq other key)) [
      | inl e ↦ let same : first ≡ tree = cc (rw e at h) in rw (← same) keys
      | inr e ↦ child_of-HasKeys key children tree (rw e at h) later
    ]

exact_category_ends : (children : Children) → exact_category children ≢ out_of_fuel
unfolding exact_category
exact_category_ends children = elim (Option-cases (child_of [] children)) [
  | inl e ↦ rw (e, exact_category) (ground arith)
  | inr (tree, e) ↦ elim (Option-cases (category_of tree)) [
    | inl k ↦ rw (e, exact_category) (rw k (ground arith))
    | inr (category, k) ↦ rw (e, exact_category) (rw k (ground arith))
  ]
]

search_tree_ends :
    (fuel : ℕ) (tree : Tree) (tag : Text) (category : Option Text)
    → HasKeys tree
    → length tag < fuel
    → search_tree fuel tree tag category ≢ out_of_fuel
unfolding search_tree HasKeys
search_tree_ends zero tree tag category keys h = absurd (omega arith)
search_tree_ends (suc fuel) (leaf own key_length) [] category keys h = ground arith
search_tree_ends (suc fuel) (node own key_length children) [] category keys h =
    exact_category_ends children
search_tree_ends (suc fuel) (leaf own none) (c ∷ tag) category keys h = ground arith
search_tree_ends (suc fuel) (node own none children) (c ∷ tag) category keys h = ground arith
search_tree_ends (suc fuel) (leaf own (some n)) (c ∷ tag) category keys h =
    elim (Bool-cases (ltb (length (c ∷ tag)) n)) [
      | inl e ↦ rw (e, search_tree) (ground arith)
      | inr e ↦ rw (e, search_tree) (ground arith)
    ]
search_tree_ends (suc fuel) (node own (some n) children) (c ∷ tag) category (positive, keys) h =
    elim (Bool-cases (ltb (length (c ∷ tag)) n)) [
      | inl e ↦ rw (e, search_tree) (ground arith)
      | inr e ↦ elim (Option-cases (child_of (take n (c ∷ tag)) children)) [
        | inl k ↦ rw (e, search_tree) (rw k (ground arith))
        | inr (tree, k) ↦
            rw (e, search_tree)
              (rw k (
                search_tree_ends fuel tree (drop n (c ∷ tag)) (or_category own category)
                  (child_of-HasKeys (take n (c ∷ tag)) children tree k keys)
                  (omega (arith, length-drop n (c ∷ tag)))))
      ]
    ]

Found-cases :
    (f : Found)
    → (f ≡ out_of_fuel) ⊎ ((f ≡ key_error) ⊎ ((category : Option Text) × (f ≡ found category)))
Found-cases out_of_fuel = inl refl
Found-cases key_error = inr (inl refl)
Found-cases (found category) = inr (inr (category, refl))

-- In trees where no key length is 0, `categorize` ends with a category, the default or a `KeyError`: no
-- search takes more rounds than the name has characters, and one.
pub categorize_ends :
    (direct backward : Tree) (name default : Text)
    → HasKeys direct
    → HasKeys backward
    → categorize (length name + 1) direct backward name default ≢ out_of_fuel
unfolding categorize
categorize_ends direct backward name default keys keys' =
    let first = search_tree_ends (length name + 1) direct name none keys (omega arith) in
    let second =
      search_tree_ends (length name + 1) backward (reverse name) none keys'
        (omega (arith, length-reverse name)) in
    elim (Found-cases (search_tree (length name + 1) direct name none)) [
      | inl e ↦ absurd (first e)
      | inr (inl e) ↦ rw (e, categorize) (ground arith)
      | inr (inr (some category, e)) ↦ rw (e, categorize) (ground arith)
      | inr (inr (none, e)) ↦
          elim (Found-cases (search_tree (length name + 1) backward (reverse name) none)) [
            | inl e' ↦ absurd (second e')
            | inr (inl e') ↦ rw (e, categorize) (rw e' (ground arith))
            | inr (inr (some category, e')) ↦ rw (e, categorize) (rw e' (ground arith))
            | inr (inr (none, e')) ↦ rw (e, categorize) (rw e' (ground arith))
          ]
    ]
