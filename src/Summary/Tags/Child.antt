-- ===== src/Summary/Tags/Child.antt =====
-- The children that the two loops of `build_search_tree` leave, and a search that goes to one of them.
use mathlib.Core.Path.{subst}
use pti_gpu_itt_only.Base.{
  ℕ, zero, suc, ◌+◌, ◌≤◌, ◌<◌, ◌≡◌, ◌∙◌, refl, sym, ap, arith, Bool, true, false, List, [], ◌∷◌,
  ◌++◌, Option, none, some, length, take, drop, length-take, length-drop, take-append-drop,
  ltb-cases, inl, inr, ◌⊎◌, Option-cases,
}
use pti_gpu_itt_only.Text.{Text, text_eq}
use pti_gpu_itt_only.Summary.{
  Tree, node, Children, child_of, Found, found, key_error, search_tree, exact_category,
}
use pti_gpu_itt_only.Summary.Tags.{Tag, end_node}
use pti_gpu_itt_only.Summary.Tags.Walk.{
  last_empty, longer, under, walk, IsNotExact, IsCutShort, AreLong, last_empty-AreLong, walk-under,
  walk_short, IsCutShort-under, walk_none,
}
use pti_gpu_itt_only.Summary.Tags.Nodes.{or_end_node}
use pti_gpu_itt_only.Summary.Tags.Lists.{joined, AtKey}
use pti_gpu_itt_only.Summary.Tags.Ended.{
  Agrees, Finds, Built, end_node-Agrees, longer_nil, last_empty-cases,
}
use pti_gpu_itt_only.Summary.Tags.Joined.{joined-Agrees}

-- The step of a search from a node to its child.
search_tree-step :
    (fuel n : ℕ) (children : Children) (name : Text) (category : Option Text)
    → 1 ≤ n
    → n ≤ length name
    → ((child_of (take n name) children ≡ none)
        × (search_tree (suc fuel) (node none (some n) children) name category ≡ found category))
      ⊎ ((tree : Tree) × (child_of (take n name) children ≡ some tree)
          × (search_tree (suc fuel) (node none (some n) children) name category
              ≡ search_tree fuel tree (drop n name) category))
unfolding search_tree
search_tree-step fuel n children [] category h long = absurd (omega arith)
search_tree-step fuel n children (c ∷ name) category h long =
    elim (ltb-cases (length (c ∷ name)) n) [
      | inl (e, short) ↦ absurd (omega arith)
      | inr (e, _) ↦ elim (Option-cases (child_of (take n (c ∷ name)) children)) [
        | inl no_tree ↦ inl (no_tree, rw (e, search_tree) (rw no_tree refl))
        | inr (tree, hit) ↦ inr (tree, hit, rw (e, search_tree) (rw hit refl))
      ]
    ]

search_tree_short :
    (fuel n : ℕ) (children : Children) (x : ℕ) (name : Text) (category : Option Text)
    → length (x ∷ name) < n
    → search_tree (suc fuel) (node none (some n) children) (x ∷ name) category ≡ found category
unfolding search_tree
search_tree_short fuel n children x name category h = elim (ltb-cases (length (x ∷ name)) n) [
  | inl (e, _) ↦ rw (e, search_tree) refl
  | inr (_, long) ↦ absurd (omega arith)
]

search_tree_root :
    (fuel n : ℕ) (children : Children) (category : Option Text)
    → child_of [] children ≡ none
    → search_tree (suc fuel) (node none (some n) children) [] category ≡ key_error
unfolding search_tree exact_category
search_tree_root fuel n children category h = rw (h, exact_category) refl

under_nil : (k : ℕ) (tags : List Tag) → AreLong (suc k) tags → under (suc k) [] tags ≡ []
unfolding text_eq
under_nil k [] h = refl
under_nil k (([], category, is_exact) ∷ tags) (h, hs) = absurd (omega arith)
under_nil k ((c ∷ text, category, is_exact) ∷ tags) (h, hs) = under_nil k tags hs

some_same : {A : Type 0} {a b : A} → some a ≡ some b → a ≡ b
some_same h = cc h

module _ (build : List Tag → Option Tree) (tags : List Tag) where
  -- The recursive call builds a tree that agrees, of the tags left behind any key.
  abbrev pub BuildsLonger : ℕ → Type 0
  BuildsLonger k =
      (key : Text)
      → 1 ≤ length (longer (under k key tags))
      → (sub_tree : Tree) × (build (longer (under k key tags)) ≡ some sub_tree)
        × Built (longer (under k key tags)) sub_tree

  -- What the child at a key is, after both loops.
  child_at :
      (k : ℕ) (children : Children) (key : Text)
      → BuildsLonger k
      → AtKey build key
          (longer (under k key tags))
          (or_end_node (last_empty (under k key tags)) none)
          (child_of key children)
      → (tree : Tree) → child_of key children ≡ some tree
      → Finds (under k key tags) tree
  child_at k children key builds (inl (no_tags, behind)) tree here fuel name category enough =
      let before : or_end_node (last_empty (under k key tags)) none ≡ some tree =
        sym behind ∙ here in
      elim (last_empty-cases (under k key tags)) [
        | inl e ↦ absurd (ground (arith, before, rw e at before))
        | inr (own, inl e) ↦ ended own false e before
        | inr (own, inr e) ↦ ended own true e before
      ]
    where
      ended :
          (own : Text) (is_exact : Bool)
          → last_empty (under k key tags) ≡ some (own, is_exact)
          → or_end_node (last_empty (under k key tags)) none ≡ some tree
          → Agrees (under k key tags) name category (search_tree fuel tree name category)
      ended own is_exact e before =
          let same : end_node own is_exact ≡ tree = some_same (rw e at before) in
          rw (← same) (
            inl
              (end_node-Agrees (under k key tags) own is_exact fuel name category no_tags e enough))
  child_at k children key builds (inr (sub_tree, is_built, some_tag, behind)) tree here fuel name
        category enough =
      let (sub_tree', is_built', is_right) = builds key some_tag in
      let same : sub_tree' ≡ sub_tree = some_same (sym is_built' ∙ is_built) in
      let there : joined (or_end_node (last_empty (under k key tags)) none) sub_tree ≡ tree =
        some_same (sym behind ∙ here) in
      rw (← there) (
        rw (← same)
          (joined-Agrees (under k key tags) sub_tree' is_right some_tag fuel name category enough))

  -- Without a child at the key, no tag begins with it.
  no_child_at :
      (k : ℕ) (children : Children) (key : Text)
      → AtKey build key
          (longer (under k key tags))
          (or_end_node (last_empty (under k key tags)) none)
          (child_of key children)
      → child_of key children ≡ none
      → under k key tags ≡ []
  no_child_at k children key (inl (no_tags, behind)) here =
      let before : or_end_node (last_empty (under k key tags)) none ≡ none = sym behind ∙ here in
      elim (last_empty-cases (under k key tags)) [
        | inl e ↦ longer_nil (under k key tags) no_tags e
        | inr (own, inl e) ↦ absurd (ground (arith, rw e at before))
        | inr (own, inr e) ↦ absurd (ground (arith, rw e at before))
      ]
  no_child_at k children key (inr (sub_tree, is_built, some_tag, behind)) here =
      absurd (ground arith)

  Agrees-under :
      (k : ℕ) (key rest : Text) (category : Option Text) (result : Found)
      → length key ≡ k
      → AreLong k tags
      → Agrees (under k key tags) rest category result
      → Agrees tags (key ++ rest) category result
  Agrees-under k key rest category result h long (inl e) =
      inl (e ∙ ap found (sym (walk-under k key rest tags category h long)))
  Agrees-under k key rest category result h long (inr (e, cut)) =
      inr (e, IsCutShort-under k key rest tags h long cut)

  -- The tree of both loops' children.
  pub tree-Built :
      (k : ℕ) (children : Children)
      → AreLong (suc k) tags
      → 1 ≤ length (longer tags)
      → BuildsLonger (suc k)
      → ((key : Text)
          → AtKey build key
              (longer (under (suc k) key tags))
              (or_end_node (last_empty (under (suc k) key tags)) none)
              (child_of key children))
      → Built tags (node none (some (suc k)) children)
  unfolding IsCutShort
  tree-Built k children long some_tag builds at_key = record {
    key_length = suc k;
    children = children;
    is_node = refl;
    is_keyed = omega arith;
    no_exact = no_root;
    finds = finds;
  }
    where
      no_exact : AtKey build [] [] none (child_of [] children) → child_of [] children ≡ none
      no_exact (inl (_, behind)) = behind
      no_exact (inr (sub_tree, is_built, some_tag', behind)) = absurd (omega arith)

      no_root : child_of [] children ≡ none
      no_root = no_exact (
          subst
            (λ ts.
              AtKey build [] (longer ts) (or_end_node (last_empty ts) none) (child_of [] children))
            (under_nil k tags long) (at_key []))

      at_child :
          (fuel x : ℕ) (name : Text) (category : Option Text)
          → length (x ∷ name) + 1 ≤ suc fuel
          → suc k ≤ length (x ∷ name)
          → Agrees tags
              (take (suc k) (x ∷ name) ++ drop (suc k) (x ∷ name))
              category
              (search_tree (suc fuel) (node none (some (suc k)) children) (x ∷ name) category)
      at_child fuel x name category enough at_least =
          let key = take (suc k) (x ∷ name) in
          let key_long : length key ≡ suc k = omega (arith, length-take (suc k) (x ∷ name)) in
          let shorter : length (drop (suc k) (x ∷ name)) + 1 ≤ fuel =
            omega (arith, length-drop (suc k) (x ∷ name)) in
          Agrees-under (suc k) key (drop (suc k) (x ∷ name)) category
            (search_tree (suc fuel) (node none (some (suc k)) children) (x ∷ name) category)
            key_long long
            (elim (search_tree-step fuel (suc k) children (x ∷ name) category (omega arith)
              at_least) [
                | inl (no_tree, found_it) ↦
                    let gone : under (suc k) key tags ≡ [] =
                      no_child_at (suc k) children key (at_key key) no_tree in
                    inl (
                      found_it
                      ∙ ap found (
                          sym (walk_none (drop (suc k) (x ∷ name)) category)
                          ∙ ap (λ ts. walk ts category (drop (suc k) (x ∷ name))) (sym gone)))
                | inr (tree, here, goes_on) ↦
                    subst (Agrees (under (suc k) key tags) (drop (suc k) (x ∷ name)) category)
                      (sym goes_on)
                      (child_at (suc k) children key builds (at_key key) tree here fuel
                        (drop (suc k) (x ∷ name)) category shorter)
              ])

      finds : Finds tags (node none (some (suc k)) children)
      finds zero name category enough = absurd (omega arith)
      finds (suc fuel) [] category enough = inr (
        search_tree_root fuel (suc k) children category no_root,
        (some_tag, subst IsNotExact (sym (last_empty-AreLong k tags long)) tt),
      )
      finds (suc fuel) (x ∷ name) category enough = elim (ltb-cases (length (x ∷ name)) (suc k)) [
        | inl (_, short) ↦ inl (
            search_tree_short fuel (suc k) children x name category short
            ∙ ap found (sym (walk_short (suc k) (x ∷ name) tags category short long)))
        | inr (_, at_least) ↦
            subst
              (λ n.
                Agrees tags n category
                  (search_tree (suc fuel) (node none (some (suc k)) children) (x ∷ name) category))
              (take-append-drop (suc k) (x ∷ name)) (at_child fuel x name category enough at_least)
      ]
