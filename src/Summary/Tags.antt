-- ===== src/Summary/Tags.antt =====
-- `build_search_tree` of `tools/unitrace/scripts/summary/categorize.py`: the tree of tags that
-- `search_tree` of `summary.py` walks. A dictionary of nodes is `Children`, one of lists of tags an
-- association list, both in the order of insertion.
pub mod Walk
pub mod Nodes
pub mod Lists
pub mod Ended
pub mod Joined
pub mod Child
pub mod Least
pub mod Build
use pti_gpu_itt_only.Base.{
  ℕ, zero, suc, min, Bool, true, false, List, [], ◌∷◌, ◌++◌, Option, none, some, if◌then◌else◌,
  length, take, drop,
}
use pti_gpu_itt_only.Text.{Text, text_eq}
use pti_gpu_itt_only.Summary.{Tree, leaf, node, Children, no_child, child, child_of, or_category}

-- A tag, its category, and whether a name has to be the whole tag.
abbrev pub Tag : Type 0
Tag = Text × Text × Bool

-- `min( len( tag[0] ) for tag in tags )`
unfoldable pub key_length : Tag → List Tag → ℕ
key_length tag [] = length tag.0
key_length tag (other ∷ tags) = min (length tag.0) (key_length other tags)

-- `next_nodes[key] = tree`
unfoldable pub put_child : Text → Tree → Children → Children
put_child key tree no_child = child key tree no_child
put_child key tree (child other old children) =
    if text_eq other key
    then child other tree children
    else child other old (put_child key tree children)

abbrev pub TagLists : Type 0
TagLists = List (Text × List Tag)

-- `next_tags[key].append( tag )`
unfoldable pub append_tag : Text → Tag → TagLists → TagLists
append_tag key tag [] = (key, tag ∷ []) ∷ []
append_tag key tag ((other, tags) ∷ lists) =
    if text_eq other key
    then (other, tags ++ tag ∷ []) ∷ lists
    else (other, tags) ∷ append_tag key tag lists

-- The node of a tag that ends.
abbrev pub end_node : Text → Bool → Tree
end_node category true = node none none (child [] (leaf (some category) none) no_child)
end_node category false = leaf (some category) none

-- The loop over the tags: `next_nodes` and `next_tags`.
unfoldable pub split_tags : ℕ → List Tag → Children → TagLists → Children × TagLists
split_tags k [] nodes lists = (nodes, lists)
split_tags k ((text, category, is_exact) ∷ tags) nodes lists = elim (drop k text) [
  | [] ↦ split_tags k tags (put_child (take k text) (end_node category is_exact) nodes) lists
  | c ∷ rest ↦
      split_tags k tags nodes (append_tag (take k text) (c ∷ rest, category, is_exact) lists)
]

-- `children.update( new )`
unfoldable pub update_children : Children → Children → Children
update_children children no_child = children
update_children children (child key tree new) = update_children (put_child key tree children) new

-- `if 'next' in node and 'next' in sub_tree: …` and `node.update( sub_tree )`. A sub-tree is
-- a node with a length.
unfoldable pub update_node : Tree → Tree → Tree
update_node old (leaf own n) = old
update_node (leaf own n) (node own' n' children) = node (or_category own' own) n' children
update_node (node own n old) (node own' n' children) =
    node (or_category own' own) n' (update_children children old)

-- `next_nodes[key]`, with the sub-tree of the longer tags.
unfoldable pub put_sub_tree : Text → Tree → Children → Children
put_sub_tree key sub_tree nodes = elim (child_of key nodes) [
  | none ↦ put_child key sub_tree nodes
  | some old ↦ put_child key (update_node old sub_tree) nodes
]

-- The loop over `next_tags`; `build` is the recursive call.
unfoldable pub put_sub_trees : (List Tag → Option Tree) → TagLists → Children → Option Children
put_sub_trees build [] nodes = some nodes
put_sub_trees build ((key, tags) ∷ lists) nodes = elim (build tags) [
  | none ↦ none
  | some sub_tree ↦ put_sub_trees build lists (put_sub_tree key sub_tree nodes)
]

-- `none` is the `ValueError` of the least length of no tags.
unfoldable pub build_search_tree : ℕ → List Tag → Option Tree
build_search_tree zero tags = none
build_search_tree (suc fuel) [] = none
build_search_tree (suc fuel) (tag ∷ tags) =
    let k = key_length tag tags in
    let (nodes, lists) = split_tags k (tag ∷ tags) no_child [] in
    elim (put_sub_trees (build_search_tree fuel) lists nodes) [
      | none ↦ none
      | some children ↦ some (node none (some k) children)
    ]
