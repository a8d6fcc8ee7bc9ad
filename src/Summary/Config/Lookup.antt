-- ===== src/Summary/Config/Lookup.antt =====
-- `categorize` of `summary.py` on the trees that `categorize.py` writes.
use mathlib.Core.List.{reverse}
use pti_gpu_itt_only.Base.{
  ◌+◌, ◌≤◌, ℕ, ◌≡◌, ◌⊎◌, inl, inr, refl, arith, Bool, List, Option, none, some, length,
  length-reverse,
}
use pti_gpu_itt_only.Text.{Text}
use pti_gpu_itt_only.Summary.{Tree, found, key_error, search_tree, categorize}
use pti_gpu_itt_only.Summary.Tags.{Tag}
use pti_gpu_itt_only.Summary.Tags.Walk.{walk, IsCutShort, AreLong}
use pti_gpu_itt_only.Summary.Tags.Ended.{Agrees}
use pti_gpu_itt_only.Summary.Tags.Build.{search_tree-build_search_tree}
use pti_gpu_itt_only.Summary.Config.{Section, all_tags, schema}

-- The category of the first search, or of the second, or the default.
abbrev or_default : Option Text → Option Text → Text → Text
or_default (some category) second default = category
or_default none (some category) default = category
or_default none none default = default

-- The category by the tags of names' beginnings, or else of their ends, or else the default.
abbrev pub by_tags : List Tag → List Tag → Text → Text → Text
by_tags direct_search reverse_search name default =
    or_default (walk direct_search none name) (walk reverse_search none (reverse name)) default

module _ (fuel : ℕ) (direct backward : Tree) (name default : Text) where
  categorize-found :
      (first second : Option Text)
      → search_tree fuel direct name none ≡ found first
      → search_tree fuel backward (reverse name) none ≡ found second
      → categorize fuel direct backward name default
        ≡ found (some (or_default first second default))
  unfolding categorize
  categorize-found (some category) second e e' = rw (e, categorize) refl
  categorize-found none (some category) e e' = rw (e, categorize) (rw e' refl)
  categorize-found none none e e' = rw (e, categorize) (rw e' refl)

  categorize-first_error :
      search_tree fuel direct name none ≡ key_error
      → categorize fuel direct backward name default ≡ key_error
  unfolding categorize
  categorize-first_error e = rw (e, categorize) refl

  categorize-second_error :
      (first second : Option Text)
      → search_tree fuel direct name none ≡ found first
      → search_tree fuel backward (reverse name) none ≡ key_error
      → (categorize fuel direct backward name default
          ≡ found (some (or_default first second default)))
        ⊎ (categorize fuel direct backward name default ≡ key_error)
  unfolding categorize
  categorize-second_error (some category) second e e' = inl (rw (e, categorize) refl)
  categorize-second_error none second e e' = inr (rw (e, categorize) (rw e' refl))

  categorize-Agrees :
      (direct_search reverse_search : List Tag)
      → Agrees direct_search name none (search_tree fuel direct name none)
      → Agrees reverse_search (reverse name) none (search_tree fuel backward (reverse name) none)
      → (categorize fuel direct backward name default
          ≡ found (some (by_tags direct_search reverse_search name default)))
        ⊎ ((categorize fuel direct backward name default ≡ key_error)
            × (IsCutShort direct_search name ⊎ IsCutShort reverse_search (reverse name)))
  categorize-Agrees direct_search reverse_search (inr (e, cut)) other =
      inr (categorize-first_error e, inl cut)
  categorize-Agrees direct_search reverse_search (inl e) (inl e') = inl (
      categorize-found (walk direct_search none name) (walk reverse_search none (reverse name)) e
        e')
  categorize-Agrees direct_search reverse_search (inl e) (inr (e', cut)) =
      elim (categorize-second_error (walk direct_search none name)
        (walk reverse_search none (reverse name)) e e') [ inl h ↦ inl h | inr h ↦ inr (h, inr cut) ]

-- Take the sections of an INI file whose tags are not empty, at least one of them for the beginnings of
-- names and one for their ends. Then both trees of the schema are built. The category of a name by
-- them, with fuel for the name's length and one more, is the one that `by_tags` gives without any tree:
-- that of the last tag which is the name, or else of the longest tag that begins the name and need not
-- be the whole of it, or else the same for the name read from its end, or else the default; or it is a
-- `KeyError`, and then the name, or the name read from its end, is cut short: a tag goes on behind it,
-- and the last tag that is all of it, if there is one, is not exact.
pub categorize-schema :
    (remove_spaces : Bool) (sections : List Section) (fuel : ℕ) (name default : Text)
    → AreLong 1 (all_tags remove_spaces sections).0
    → AreLong 1 (all_tags remove_spaces sections).1
    → 1 ≤ length (all_tags remove_spaces sections).0
    → 1 ≤ length (all_tags remove_spaces sections).1
    → length name + 1 ≤ fuel
    → (direct : Tree) × (backward : Tree) × (schema remove_spaces sections
        ≡ some (direct, backward))
      × ((categorize fuel direct backward name default
            ≡ found (
                some (
                  by_tags
                    (all_tags remove_spaces sections).0
                    (all_tags remove_spaces sections).1
                    name
                    default)))
          ⊎ ((categorize fuel direct backward name default ≡ key_error)
              × (IsCutShort (all_tags remove_spaces sections).0 name
                  ⊎ IsCutShort (all_tags remove_spaces sections).1 (reverse name))))
unfolding schema
categorize-schema remove_spaces sections fuel name default long long' filled filled' enough =
    let direct_search = (all_tags remove_spaces sections).0 in
    let reverse_search = (all_tags remove_spaces sections).1 in
    let (direct, is_direct, agrees) =
      search_tree-build_search_tree (length direct_search) direct_search fuel name none long filled
        (omega arith) enough in
    let (backward, is_backward, agrees') =
      search_tree-build_search_tree (length reverse_search) reverse_search fuel (reverse name) none
        long' filled' (omega arith) (omega (arith, length-reverse name)) in
    (
      direct,
      backward,
      rw is_direct (rw is_backward refl),
      categorize-Agrees fuel direct backward name default direct_search reverse_search agrees
          agrees',
    )
