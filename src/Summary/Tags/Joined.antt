-- ===== src/Summary/Tags/Joined.antt =====
-- The node of `build_search_tree` at a key, with the sub-tree of the longer tags.
use mathlib.Core.Path.{subst}
use pti_gpu_itt_only.Base.{
  ℕ, zero, suc, ◌+◌, ◌≤◌, ◌≡◌, ◌∙◌, refl, sym, ap, arith, true, false, List, [], ◌∷◌, Option, none,
  some, length, ltb, take, Bool-cases, inl, inr,
}
use pti_gpu_itt_only.Text.{Text, text_eq}
use pti_gpu_itt_only.Summary.{
  Tree, leaf, node, Children, no_child, child, child_of, Found, found, key_error, search_tree,
  exact_category,
}
use pti_gpu_itt_only.Summary.Tags.{Tag, update_children, update_node}
use pti_gpu_itt_only.Summary.Tags.Walk.{
  last_empty, longer, ending, passing, walk, IsNotExact, IsCutShort, walk-longer, IsCutShort-longer,
}
use pti_gpu_itt_only.Summary.Tags.Nodes.{child_of-put_child, or_end_node}
use pti_gpu_itt_only.Summary.Tags.Lists.{joined}
use pti_gpu_itt_only.Summary.Tags.Ended.{Agrees, Built, last_empty-cases}

-- The sub-tree at the key of a tag that counts for longer names too.
search_tree-own :
    (fuel : ℕ) (own : Text) (n x : ℕ) (children : Children) (name : Text) (category : Option Text)
    → search_tree fuel (node (some own) (some n) children) (x ∷ name) category
      ≡ search_tree fuel (node none (some n) children) (x ∷ name) (some own)
unfolding search_tree
search_tree-own zero own n x children name category = refl
search_tree-own (suc fuel) own n x children name category = refl

search_tree-children :
    (fuel n x : ℕ) (a b : Children) (name : Text) (category : Option Text)
    → ((key : Text) → 1 ≤ length key → child_of key a ≡ child_of key b)
    → 1 ≤ n
    → search_tree fuel (node none (some n) a) (x ∷ name) category
      ≡ search_tree fuel (node none (some n) b) (x ∷ name) category
unfolding search_tree
search_tree-children zero n x a b name category h some_key = refl
search_tree-children (suc fuel) zero x a b name category h some_key = absurd (omega arith)
search_tree-children (suc fuel) (suc n) x a b name category h some_key =
    let same : child_of (x ∷ take n name) a ≡ child_of (x ∷ take n name) b =
      h (x ∷ take n name) (omega arith) in
    elim (Bool-cases (ltb (length (x ∷ name)) (suc n))) [
      | inl short ↦ rw (short, search_tree) refl
      | inr long ↦ rw (long, search_tree) (rw same refl)
    ]

child_of-no_exact :
    (children : Children) → child_of [] children ≡ none → exact_category children ≡ key_error
unfolding exact_category
child_of-no_exact children h = rw (h, exact_category) refl

-- A node without the empty key, at the name that ends there.
search_tree_cut :
    (fuel : ℕ) (own : Option Text) (n : ℕ) (children : Children) (category : Option Text)
    → child_of [] children ≡ none
    → search_tree (suc fuel) (node own (some n) children) [] category ≡ key_error
unfolding search_tree
search_tree_cut fuel own n children category h = child_of-no_exact children h

abbrev added : Text → Children → Children
added own children = update_children children (child [] (leaf (some own) none) no_child)

added-other :
    (own : Text) (children : Children) (key : Text)
    → 1 ≤ length key
    → child_of key (added own children) ≡ child_of key children
unfolding update_children text_eq
added-other own children [] h = absurd (omega arith)
added-other own children (x ∷ key) h =
    child_of-put_child (x ∷ key) [] (leaf (some own) none) children

search_tree-exact :
    (fuel : ℕ) (own : Text) (n : ℕ) (children : Children) (category : Option Text)
    → search_tree (suc fuel) (node none (some n) (added own children)) [] category
      ≡ found (some own)
unfolding search_tree exact_category update_children text_eq
search_tree-exact fuel own n children category =
    rw (child_of-put_child [] [] (leaf (some own) none) children, exact_category) refl

module _ (tags : List Tag) (sub_tree : Tree) (built : Built (longer tags) sub_tree) where
  abbrev AgreesWith : Tree → Type 0
  AgreesWith tree =
      (fuel : ℕ) (name : Text) (category : Option Text)
      → length name + 1 ≤ fuel
      → Agrees tags name category (search_tree fuel tree name category)

  further :
      (x : ℕ) (name : Text) (category : Option Text) (result : Found)
      → Agrees (longer tags) (x ∷ name) (passing (last_empty tags) category) result
      → Agrees tags (x ∷ name) category result
  further x name category result (inl e) =
      inl (e ∙ ap found (sym (walk-longer x name tags category)))
  further x name category result (inr (e, cut)) = inr (e, IsCutShort-longer x name tags cut)

  abbrev of_sub_tree : ℕ → Text → Option Text → Found
  of_sub_tree fuel name category =
      search_tree fuel (node none (some built.key_length) built.children) name category

  found_further :
      (fuel x : ℕ) (name : Text) (category : Option Text)
      → length (x ∷ name) + 1 ≤ fuel
      → Agrees tags
          (x ∷ name)
          category
          (of_sub_tree fuel (x ∷ name) (passing (last_empty tags) category))
  found_further fuel x name category h =
      further x name category (of_sub_tree fuel (x ∷ name) (passing (last_empty tags) category))
        (rw (← built.is_node) (built.finds fuel (x ∷ name) (passing (last_empty tags) category) h))

  cut_short :
      (own : Option Text) (children : Children) (fuel : ℕ) (category : Option Text)
      → 1 ≤ length (longer tags)
      → IsNotExact (last_empty tags)
      → child_of [] children ≡ none
      → 1 ≤ fuel
      → Agrees tags [] category
          (search_tree fuel (node own (some built.key_length) children) [] category)
  unfolding IsCutShort
  cut_short own children zero category some_tag e no_exact h = absurd (omega arith)
  cut_short own children (suc fuel) category some_tag e no_exact h =
      inr (search_tree_cut fuel own built.key_length children category no_exact, (some_tag, e))

  -- No tag ends at the key.
  open-Agrees :
      1 ≤ length (longer tags)
      → last_empty tags ≡ none
      → AgreesWith (node none (some built.key_length) built.children)
  open-Agrees some_tag e fuel [] category h =
      cut_short none built.children fuel category some_tag (rw e tt) built.no_exact (omega arith)
  open-Agrees some_tag e fuel (x ∷ name) category h =
      subst (λ c. Agrees tags (x ∷ name) category (of_sub_tree fuel (x ∷ name) c))
        (ap (λ l. passing l category) e) (found_further fuel x name category h)

  -- A tag ends at the key, of longer names too.
  own-Agrees :
      (own : Text)
      → 1 ≤ length (longer tags)
      → last_empty tags ≡ some (own, false)
      → AgreesWith (node (some own) (some built.key_length) built.children)
  own-Agrees own some_tag e fuel [] category h =
      cut_short (some own) built.children fuel category some_tag (rw e refl) built.no_exact
        (omega arith)
  own-Agrees own some_tag e fuel (x ∷ name) category h =
      rw (search_tree-own fuel own built.key_length x built.children name category) (
        subst (λ c. Agrees tags (x ∷ name) category (of_sub_tree fuel (x ∷ name) c))
          (ap (λ l. passing l category) e) (found_further fuel x name category h))

  -- A tag ends at the key, and is exact.
  exact-Agrees :
      (own : Text)
      → last_empty tags ≡ some (own, true)
      → AgreesWith (node none (some built.key_length) (added own built.children))
  unfolding walk
  exact-Agrees own e zero [] category h = absurd (omega arith)
  exact-Agrees own e (suc fuel) [] category h = inl (
      search_tree-exact fuel own built.key_length built.children category
      ∙ ap found (ap (λ l. ending l category) (sym e)))
  exact-Agrees own e fuel (x ∷ name) category h =
      rw
        (search_tree-children fuel built.key_length x (added own built.children) built.children name
          category (λ key some_key. added-other own built.children key some_key) built.is_keyed)
        (subst (λ c. Agrees tags (x ∷ name) category (of_sub_tree fuel (x ∷ name) c))
          (ap (λ l. passing l category) e) (found_further fuel x name category h))

  -- The node at a key with longer tags.
  pub joined-Agrees :
      1 ≤ length (longer tags) → AgreesWith (joined (or_end_node (last_empty tags) none) sub_tree)
  unfolding update_node
  joined-Agrees some_tag = elim (last_empty-cases tags) [
    | inl e ↦ rw (e, built.is_node) (open-Agrees some_tag e)
    | inr (own, inl e) ↦ rw (e, built.is_node) (own-Agrees own some_tag e)
    | inr (own, inr e) ↦ rw (e, built.is_node) (exact-Agrees own e)
  ]
