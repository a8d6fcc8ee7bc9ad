-- ===== src/Summary/Search.antt =====
-- `search_tree` of `summary.py` and the tags of its tree.
use pti_gpu_itt_only.Base.{
  ℕ, zero, suc, ◌+◌, ◌≤◌, ◌≡◌, ◌≢◌, ◌∙◌, ◌⊎◌, inl, inr, refl, sym, ap, arith, [], ◌∷◌, ◌++◌, Option,
  none, some, length, take, drop, ltb, take-append-drop, append_assoc, length-drop, Bool-cases,
  Option-cases,
}
use pti_gpu_itt_only.Text.{Text, text_eq}
use pti_gpu_itt_only.Summary.{
  Tree, leaf, node, category_of, Children, no_child, child, child_of, found, out_of_fuel,
  or_category, exact_category, search_tree,
}

-- All keys of the tree are at least one character long.
unfoldable mutual
  pub IsKeyed : Tree → Type 0
  IsKeyed (leaf own key_length) = Unit
  IsKeyed (node own none children) = AreKeyed children
  IsKeyed (node own (some n) children) = (1 ≤ n) × AreKeyed children

  pub AreKeyed : Children → Type 0
  AreKeyed no_child = Unit
  AreKeyed (child key tree children) = IsKeyed tree × AreKeyed children

child_of-IsKeyed :
    (key : Text) (children : Children) (tree : Tree)
    → AreKeyed children
    → child_of key children ≡ some tree
    → IsKeyed tree
unfolding child_of IsKeyed AreKeyed
child_of-IsKeyed key no_child tree h e = absurd (ground arith)
child_of-IsKeyed key (child other this children) tree (h, hs) e =
    elim (Bool-cases (text_eq other key)) [
      | inl hit ↦ let same : this ≡ tree = ground arith in rw (← same) h
      | inr miss ↦ child_of-IsKeyed key children tree hs (ground arith)
    ]

exact_category-ends : (children : Children) → exact_category children ≢ out_of_fuel
unfolding exact_category
exact_category-ends children = ground arith

-- Take a tree all of whose keys have at least one character. Then the search for a name ends, within
-- as many rounds as the name has characters and one more.
pub search_tree-ends :
    (fuel : ℕ) (tree : Tree) (tag : Text) (category : Option Text)
    → IsKeyed tree
    → length tag + 1 ≤ fuel
    → search_tree fuel tree tag category ≢ out_of_fuel
unfolding search_tree IsKeyed
search_tree-ends zero tree tag category keyed h = absurd (omega arith)
search_tree-ends (suc fuel) (leaf own key_length) [] category keyed h = ground arith
search_tree-ends (suc fuel) (node own key_length children) [] category keyed h =
    exact_category-ends children
search_tree-ends (suc fuel) (leaf own none) (c ∷ tag) category keyed h = ground arith
search_tree-ends (suc fuel) (node own none children) (c ∷ tag) category keyed h = ground arith
search_tree-ends (suc fuel) (leaf own (some n)) (c ∷ tag) category keyed h = ground arith
search_tree-ends (suc fuel) (node own (some n) children) (c ∷ tag) category (some_key, keyed) h =
    elim (Bool-cases (ltb (length (c ∷ tag)) n)) [
      | inl short ↦ rw (short, search_tree) (ground arith)
      | inr long ↦ elim (Option-cases (child_of (take n (c ∷ tag)) children)) [
        | inl no_tree ↦ rw (long, search_tree) (rw (no_tree) (ground arith))
        | inr (tree, e) ↦
            let shorter : length (drop n (c ∷ tag)) + 1 ≤ fuel =
              omega (arith, length-drop n (c ∷ tag)) in
            rw (long, search_tree)
              (rw (e) (
                search_tree-ends fuel tree (drop n (c ∷ tag)) (or_category own category)
                  (child_of-IsKeyed (take n (c ∷ tag)) children tree keyed e) shorter))
      ]
    ]

-- The tag that leads from the root of the tree to a category: its pieces are the keys on the way.
pub data IsTag : Tree → Text → Text → Type 0 where
  at_root :
      {tree : Tree} {category : Text} → category_of tree ≡ some category → IsTag tree [] category
  exact :
      {own : Option Text} {key_length : Option ℕ} {children : Children} {tree : Tree}
      {category : Text}
      → child_of [] children ≡ some tree
      → category_of tree ≡ some category
      → IsTag (node own key_length children) [] category
  longer :
      {own : Option Text} {n : ℕ} {children : Children} {tree : Tree} (key : Text)
      {tag category : Text}
      → child_of key children ≡ some tree
      → IsTag tree tag category
      → IsTag (node own (some n) children) (key ++ tag) category

-- What is found is the category met so far, or that of a tag which the name begins with.
abbrev pub FromTag : Tree → Text → Option Text → Text → Type 0
FromTag tree name category result =
    (category ≡ some result)
    ⊎ ((tag : Text) × (rest : Text) × (name ≡ tag ++ rest) × IsTag tree tag result)

own-FromTag :
    (tree : Tree) (name : Text) (category : Option Text) (result : Text)
    → or_category (category_of tree) category ≡ some result
    → FromTag tree name category result
own-FromTag tree name category result h = elim (Option-cases (category_of tree)) [
  | inl no_own ↦ inl (ground arith)
  | inr (own, e) ↦ inr ([], name, refl, at_root (ground arith))
]

found_inj : (a b : Option Text) → found a ≡ found b → a ≡ b
found_inj a b h = ground arith

exact_category-FromTag :
    (own : Option Text) (key_length : Option ℕ) (children : Children) (category : Option Text)
    (result : Text)
    → exact_category children ≡ found (some result)
    → FromTag (node own key_length children) [] category result
unfolding exact_category
exact_category-FromTag own key_length children category result h =
    elim (Option-cases (child_of [] children)) [
      | inl no_tree ↦ absurd (ground arith)
      | inr (tree, e) ↦ elim (Option-cases (category_of tree)) [
        | inl no_own ↦ absurd (ground arith)
        | inr (own', k) ↦ inr ([], [], refl, exact e (ground arith))
      ]
    ]

-- The tag of a child, its key put in front.
FromTag-longer :
    (own : Option Text) (n : ℕ) (children : Children) (tree : Tree) (name : Text)
    (category : Option Text) (result : Text)
    → child_of (take n name) children ≡ some tree
    → FromTag tree (drop n name) (or_category own category) result
    → FromTag (node own (some n) children) name category result
FromTag-longer own n children tree name category result e (inl before) =
    own-FromTag (node own (some n) children) name category result before
FromTag-longer own n children tree name category result e (inr (tag, rest, begins, is_tag)) = inr (
  take n name ++ tag,
  rest,
  sym (take-append-drop n name)
      ∙ ap (◌++◌ (take n name)) begins
      ∙ sym (append_assoc (take n name) tag rest),
  longer (take n name) e is_tag,
)

-- If the search for a name finds a category, it is that of a tag in the tree with which the name
-- begins, or the one that the search was started with.
pub search_tree-FromTag :
    (fuel : ℕ) (tree : Tree) (name : Text) (category : Option Text) (result : Text)
    → search_tree fuel tree name category ≡ found (some result)
    → FromTag tree name category result
unfolding search_tree
search_tree-FromTag zero tree name category result h = absurd (ground arith)
search_tree-FromTag (suc fuel) (leaf own key_length) [] category result h =
    own-FromTag (leaf own key_length) [] category result (found_inj _ _ h)
search_tree-FromTag (suc fuel) (node own key_length children) [] category result h =
    exact_category-FromTag own key_length children category result h
search_tree-FromTag (suc fuel) (leaf own none) (c ∷ name) category result h =
    own-FromTag (leaf own none) (c ∷ name) category result (found_inj _ _ h)
search_tree-FromTag (suc fuel) (node own none children) (c ∷ name) category result h =
    own-FromTag (node own none children) (c ∷ name) category result (found_inj _ _ h)
search_tree-FromTag (suc fuel) (leaf own (some n)) (c ∷ name) category result h =
    own-FromTag (leaf own (some n)) (c ∷ name) category result (ground arith)
search_tree-FromTag (suc fuel) (node own (some n) children) (c ∷ name) category result h =
    elim (Bool-cases (ltb (length (c ∷ name)) n)) [
      | inl short ↦
          own-FromTag (node own (some n) children) (c ∷ name) category result (ground arith)
      | inr long ↦ elim (Option-cases (child_of (take n (c ∷ name)) children)) [
        | inl no_tree ↦
            own-FromTag (node own (some n) children) (c ∷ name) category result (ground arith)
        | inr (tree, e) ↦ FromTag-longer own n children tree (c ∷ name) category result e (
            search_tree-FromTag fuel tree (drop n (c ∷ name)) (or_category own category) result
              (ground arith))
      ]
    ]
