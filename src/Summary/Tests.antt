-- ===== src/Summary/Tests.antt =====
-- A small tree of tags, and searches in it.
use pti_gpu_itt_only.Base.{◌+◌, ◌≡◌, ◌≢◌, refl, arith, length, none, some}
use pti_gpu_itt_only.Text.{codes, text_eq}
use pti_gpu_itt_only.Summary.{
  Tree, leaf, node, no_child, child, child_of, found, key_error, out_of_fuel, exact_category,
  search_tree, categorize,
}
use pti_gpu_itt_only.Summary.Ends.{HasKeys, categorize_ends}

-- The tags `ab` and `abc`, both of names that begin with them.
abbrev two_tags : Tree
two_tags = node none (some 2) (
    child (codes "ab")
      (node (some (codes "gemm")) (some 1)
        (child (codes "c") (leaf (some (codes "conv")) none) no_child))
      no_child)

-- The name `ab` itself: the node has further tags, and none of them is exact.
no_exact_tag : search_tree 5 two_tags (codes "ab") none ≡ key_error
unfolding search_tree child_of text_eq exact_category
no_exact_tag = refl

by_default :
    categorize 5 two_tags (leaf none none) (codes "xy") (codes "device")
    ≡ found (some (codes "device"))
unfolding categorize search_tree child_of text_eq
by_default = refl

categorize_ends_example :
    categorize (length (codes "abd") + 1) two_tags (leaf none none) (codes "abd") (codes "device")
    ≢ out_of_fuel
unfolding HasKeys
categorize_ends_example =
    categorize_ends two_tags (leaf none none) (codes "abd") (codes "device")
      (omega arith, ((omega arith, (tt, tt)), tt)) tt
