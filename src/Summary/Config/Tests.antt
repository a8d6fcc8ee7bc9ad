-- ===== src/Summary/Config/Tests.antt =====
-- The sections of a small INI file, the trees of its tags, and the theorems at them.
use mathlib.Core.List.{reverse}
use pti_gpu_itt_only.Base.{◌≡◌, ◌⊎◌, refl, arith, true, false, List, [], ◌∷◌, none, some}
use pti_gpu_itt_only.Text.{codes, text_eq, starts_with, strip, lstrip, rstrip, is_space}
use pti_gpu_itt_only.Summary.{
  Tree, leaf, node, no_child, child, child_of, found, key_error, search_tree, categorize,
}
use pti_gpu_itt_only.Summary.Tags.{
  Tag, key_length, put_child, append_tag, split_tags, update_node, put_sub_tree, put_sub_trees,
  build_search_tree,
}
use pti_gpu_itt_only.Summary.Tags.Walk.{IsCutShort}
use pti_gpu_itt_only.Summary.Tags.Ended.{Agrees}
use pti_gpu_itt_only.Summary.Tags.Build.{search_tree-build_search_tree}
use pti_gpu_itt_only.Summary.Config.{
  Section, partition, without_spaces, section_name, option_tag, reverse_tags, direct_tags, all_tags,
  schema,
}
use pti_gpu_itt_only.Summary.Config.Lookup.{by_tags, categorize-schema}

abbrev three_tags : List Tag
three_tags =
    (codes "ab", codes "gemm", false)
    ∷ (codes "abc", codes "conv", false)
    ∷ (codes "xyz", codes "copy", true)
    ∷ []

abbrev three_tags_tree : Tree
three_tags_tree = node none (some 2) (
    child (codes "ab")
      (node (some (codes "gemm")) (some 1)
        (child (codes "c") (leaf (some (codes "conv")) none) no_child))
      (child (codes "xy")
        (node none (some 1) (
          child (codes "z") (node none none (child [] (leaf (some (codes "copy")) none) no_child))
            no_child))
        no_child))

three_tags_build : build_search_tree 3 three_tags ≡ some three_tags_tree
unfolding build_search_tree key_length split_tags put_child append_tag put_sub_trees put_sub_tree
    update_node child_of text_eq
three_tags_build = refl

search_tree-build_search_tree_example :
    (tree : Tree) × (build_search_tree 3 three_tags ≡ some tree)
    × Agrees three_tags (codes "abcd") none (search_tree 5 tree (codes "abcd") none)
search_tree-build_search_tree_example =
    search_tree-build_search_tree 3 three_tags 5 (codes "abcd") none
      (omega arith, (omega arith, (omega arith, tt))) (omega arith) (omega arith) (omega arith)

abbrev two_sections : List Section
two_sections =
    (codes "gemm.big if startswith", (codes "a b", none) ∷ (codes "std", some (codes "sort")) ∷ [])
    ∷ (codes "comm if ends with", (codes "_x", none) ∷ [])
    ∷ []

two_sections_tags : all_tags true two_sections ≡ (
  (codes "ab", codes "gemm", false) ∷ (codes "std:=sort", codes "gemm", false) ∷ [],
  (codes "x_", codes "comm", false) ∷ [],
)
unfolding all_tags section_name partition without_spaces option_tag reverse_tags direct_tags text_eq
    starts_with strip lstrip rstrip is_space
two_sections_tags = refl

categorize-schema_example :
    (direct : Tree) × (backward : Tree) × (schema true two_sections ≡ some (direct, backward))
    × ((categorize 5 direct backward (codes "mm_x") (codes "device")
          ≡ found (
              some (
                by_tags
                  (all_tags true two_sections).0
                  (all_tags true two_sections).1
                  (codes "mm_x")
                  (codes "device"))))
        ⊎ ((categorize 5 direct backward (codes "mm_x") (codes "device") ≡ key_error)
            × (IsCutShort (all_tags true two_sections).0 (codes "mm_x")
                ⊎ IsCutShort (all_tags true two_sections).1 (reverse (codes "mm_x")))))
unfolding all_tags section_name partition without_spaces option_tag reverse_tags direct_tags text_eq
    starts_with strip lstrip rstrip is_space
categorize-schema_example =
    categorize-schema true two_sections 5 (codes "mm_x") (codes "device")
      (omega arith, (omega arith, tt)) (omega arith, tt) (omega arith) (omega arith) (omega arith)

-- Without a section for the ends of names there is no schema.
no_reverse_tags : schema true ((codes "gemm", (codes "ab", none) ∷ []) ∷ []) ≡ none
unfolding schema all_tags section_name partition without_spaces option_tag reverse_tags direct_tags
    text_eq starts_with strip lstrip rstrip is_space build_search_tree key_length split_tags
    put_child put_sub_trees
no_reverse_tags = refl
