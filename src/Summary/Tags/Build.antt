-- ===== src/Summary/Tags/Build.antt =====
-- `build_search_tree` of `categorize.py`, and `search_tree` of `summary.py` on what it builds.
use mathlib.Core.Path.{subst}
use pti_gpu_itt_only.Base.{
  ℕ, zero, suc, ◌+◌, ◌≤◌, ◌≡◌, refl, ap, arith, List, [], ◌∷◌, Option, none, some, length, All,
}
use pti_gpu_itt_only.Text.{Text}
use pti_gpu_itt_only.Summary.{Tree, node, Children, no_child, child_of, search_tree}
use pti_gpu_itt_only.Summary.Tags.{
  Tag, TagLists, key_length, split_tags, put_sub_trees, build_search_tree,
}
use pti_gpu_itt_only.Summary.Tags.Walk.{longer, under, AreLong}
use pti_gpu_itt_only.Summary.Tags.Nodes.{tags_of, split_tags-AtEachKey}
use pti_gpu_itt_only.Summary.Tags.Lists.{
  AreSome, split_tags-AreDistinct, All-tags_of, AreBuilt, AtKey, put_sub_trees-some,
  put_sub_trees-AtKey,
}
use pti_gpu_itt_only.Summary.Tags.Child.{BuildsLonger, tree-Built}
use pti_gpu_itt_only.Summary.Tags.Ended.{Agrees, Built}
use pti_gpu_itt_only.Summary.Tags.Least.{
  key_length-AreLong, key_length-least, longer-AreLong, longer-all, longer-shrinks,
}

AreBuilt-AreSome :
    (build : List Tag → Option Tree) (lists : TagLists)
    → AreSome lists
    → All (λ l. 1 ≤ length l.1 → (sub_tree : Tree) × (build l.1 ≡ some sub_tree)) lists
    → AreBuilt build lists
AreBuilt-AreSome build [] filled h = tt
AreBuilt-AreSome build (l ∷ lists) (f, filled) (h, hs) =
    (h f, AreBuilt-AreSome build lists filled hs)

abbrev IsBuilt : (List Tag → Option Tree) → List Tag → Type 0
IsBuilt build tags = (tree : Tree) × (build tags ≡ some tree) × Built tags tree

-- The two loops, for a recursive call that builds the sub-trees.
loops-Built :
    (build : List Tag → Option Tree) (tags : List Tag) (k : ℕ)
    → AreLong (suc k) tags
    → 1 ≤ length (longer tags)
    → BuildsLonger build tags (suc k)
    → (children : Children) × (put_sub_trees build
          (split_tags (suc k) tags no_child []).1
          (split_tags (suc k) tags no_child []).0
        ≡ some children)
      × Built tags (node none (some (suc k)) children)
unfolding child_of
loops-Built build tags k long some_tag builds =
    let nodes = (split_tags (suc k) tags no_child []).0 in
    let lists = (split_tags (suc k) tags no_child []).1 in
    let (distinct, filled) = split_tags-AreDistinct (suc k) tags no_child [] (tt, tt) in
    let each : (key : Text)
        → 1 ≤ length (tags_of key lists)
        → (sub_tree : Tree) × (build (tags_of key lists) ≡ some sub_tree) =
      λ key.
        rw ((split_tags-AtEachKey (suc k) key tags no_child []).open_tags)
          (λ h. let (sub_tree, is_built, _) = builds key h in (sub_tree, is_built)) in
    let built = AreBuilt-AreSome build lists filled (
      All-tags_of (λ ts. 1 ≤ length ts → (sub_tree : Tree) × (build ts ≡ some sub_tree)) lists
        (λ h. absurd (omega arith)) distinct each) in
    let (children, is_some) = put_sub_trees-some build lists nodes built in
    (
      children,
      is_some,
      tree-Built build tags k children long some_tag builds (λ key.
          let split = split_tags-AtEachKey (suc k) key tags no_child [] in
          subst
            (λ before.
              AtKey build key (longer (under (suc k) key tags)) before (child_of key children))
            split.ended
            (subst (λ ts. AtKey build key ts (child_of key nodes) (child_of key children))
              split.open_tags
              (put_sub_trees-AtKey build key lists nodes children built filled distinct is_some))),
    )

build_search_tree_lem :
    (fuel : ℕ) (tag : Tag) (tags : List Tag) (k : ℕ) (children : Children)
    → key_length tag tags ≡ k
    → put_sub_trees
        (build_search_tree fuel)
        (split_tags k (tag ∷ tags) no_child []).1
        (split_tags k (tag ∷ tags) no_child []).0
      ≡ some children
    → build_search_tree (suc fuel) (tag ∷ tags) ≡ some (node none (some k) children)
unfolding build_search_tree
build_search_tree_lem fuel tag tags k children e is_some =
    rw (e, build_search_tree) (rw is_some (ap (λ n. some (node none (some n) children)) e))

-- One call, for a recursive call that builds of fewer tags.
build_search_tree-step :
    (fuel : ℕ) (tag : Tag) (tags : List Tag) (k : ℕ)
    → key_length tag tags ≡ k
    → AreLong 1 (tag ∷ tags)
    → 1 ≤ k
    → ((fewer : List Tag)
        → AreLong 1 fewer
        → 1 ≤ length fewer
        → length fewer ≤ length tags
        → IsBuilt (build_search_tree fuel) fewer)
    → IsBuilt (build_search_tree (suc fuel)) (tag ∷ tags)
unfolding build_search_tree
build_search_tree-step fuel tag tags zero e long h builds = absurd (omega arith)
build_search_tree-step fuel tag tags (suc k) e long h builds =
    let (children, is_some, is_built) =
      loops-Built (build_search_tree fuel) (tag ∷ tags) k
        (subst (λ n. AreLong n (tag ∷ tags)) e (key_length-AreLong tag tags))
        (rw (longer-all (tag ∷ tags) long) (omega arith))
        (λ key filled.
          builds (longer (under (suc k) key (tag ∷ tags)))
            (longer-AreLong (under (suc k) key (tag ∷ tags))) filled
            (longer-shrinks (suc k) key tag tags (omega arith))) in
    (
      node none (some (suc k)) children,
      build_search_tree_lem fuel tag tags (suc k) children e is_some,
      is_built,
    )

build_search_tree-IsBuilt :
    (fuel : ℕ) (tags : List Tag)
    → AreLong 1 tags
    → 1 ≤ length tags
    → length tags ≤ fuel
    → IsBuilt (build_search_tree fuel) tags
build_search_tree-IsBuilt zero tags long some_tag enough = absurd (omega arith)
build_search_tree-IsBuilt (suc fuel) [] long some_tag enough = absurd (omega arith)
build_search_tree-IsBuilt (suc fuel) (tag ∷ tags) long some_tag enough =
    build_search_tree-step fuel tag tags (key_length tag tags) refl long
      (key_length-least 1 tag tags long)
      (λ fewer long' filled less. build_search_tree-IsBuilt fuel fewer long' filled (omega arith))

-- Take tags, at least one and none of them empty, with fuel for as many calls as there are tags.
-- Then a tree is built of them. The search in it for any name, with fuel for the name's length and one
-- more, ends in one of two ways: it finds the category that `walk` gives, that of the tag which is the
-- whole name, or else of the longest tag that begins the name and need not be the whole of it, or else
-- the category given; or it fails with a `KeyError`, and then some tag is the name and more, and the last
-- tag that is the name, if there is one, is not exact.
pub search_tree-build_search_tree :
    (fuel : ℕ) (tags : List Tag) (search_fuel : ℕ) (name : Text) (category : Option Text)
    → AreLong 1 tags
    → 1 ≤ length tags
    → length tags ≤ fuel
    → length name + 1 ≤ search_fuel
    → (tree : Tree) × (build_search_tree fuel tags ≡ some tree)
      × Agrees tags name category (search_tree search_fuel tree name category)
search_tree-build_search_tree fuel tags search_fuel name category long some_tag enough
      enough_for_name =
    let (tree, is_some, is_built) = build_search_tree-IsBuilt fuel tags long some_tag enough in
    (tree, is_some, is_built.finds search_fuel name category enough_for_name)
