-- ===== src/Summary/Tags/Lists.antt =====
-- The second loop of `build_search_tree`, and the lists of tags that it goes through.
use mathlib.Core.Path.{subst}
use pti_gpu_itt_only.Base.{
  ℕ, ◌≤◌, ◌≡◌, ◌∙◌, refl, sym, ap, arith, Bool, true, false, List, [], ◌∷◌, Option, none, some,
  if◌then◌else◌, length, length-append, take, drop, All, Bool-cases, inl, inr, ◌⊎◌, Option-cases,
}
use pti_gpu_itt_only.Text.{Text, text_eq, text_eq_iff}
use pti_gpu_itt_only.Summary.{Tree, Children, child_of}
use pti_gpu_itt_only.Summary.Tags.{
  Tag, TagLists, put_child, append_tag, end_node, split_tags, update_node, put_sub_tree,
  put_sub_trees,
}
use pti_gpu_itt_only.Summary.Tags.Nodes.{child_of-put_child, tags_of}

abbrev pub IsAbsent : Text → TagLists → Type 0
IsAbsent key lists = All (λ l. text_eq l.0 key ≡ false) lists

abbrev pub AreDistinct : TagLists → Type 0
AreDistinct [] = Unit
AreDistinct ((key, tags) ∷ lists) = IsAbsent key lists × AreDistinct lists

abbrev pub AreSome : TagLists → Type 0
AreSome lists = All (λ l. 1 ≤ length l.1) lists

IsAbsent-append_tag :
    (other key : Text) (tag : Tag) (lists : TagLists)
    → text_eq key other ≡ false
    → IsAbsent other lists
    → IsAbsent other (append_tag key tag lists)
unfolding append_tag
IsAbsent-append_tag other key tag [] n h = (n, tt)
IsAbsent-append_tag other key tag ((k, tags) ∷ lists) n (h, hs) =
    elim (Bool-cases (text_eq k key)) [
      | inl e ↦ rw e (h, hs)
      | inr e ↦ rw e (h, IsAbsent-append_tag other key tag lists n hs)
    ]

text_eq_comm : (a b : Text) → text_eq a b ≡ false → text_eq b a ≡ false
text_eq_comm a b h = elim (Bool-cases (text_eq b a)) [
  | inr e ↦ e
  | inl e ↦
      let hit : text_eq a b ≡ true = (text_eq_iff a b).1 (sym ((text_eq_iff b a).0 e)) in
      absurd (ground arith)
]

AreDistinct-append_tag :
    (key : Text) (tag : Tag) (lists : TagLists)
    → AreDistinct lists
    → AreDistinct (append_tag key tag lists)
unfolding append_tag
AreDistinct-append_tag key tag [] h = (tt, tt)
AreDistinct-append_tag key tag ((k, tags) ∷ lists) (h, hs) = elim (Bool-cases (text_eq k key)) [
  | inl e ↦ rw e (h, hs)
  | inr e ↦ rw e (
    IsAbsent-append_tag k key tag lists (text_eq_comm k key e) h,
    AreDistinct-append_tag key tag lists hs,
  )
]

AreSome-append_tag :
    (key : Text) (tag : Tag) (lists : TagLists) → AreSome lists → AreSome (append_tag key tag lists)
unfolding append_tag
AreSome-append_tag key tag [] h = (omega arith, tt)
AreSome-append_tag key tag ((k, tags) ∷ lists) (h, hs) = elim (Bool-cases (text_eq k key)) [
  | inl e ↦ rw e (omega (arith, length-append tags (tag ∷ [])), hs)
  | inr e ↦ rw e (h, AreSome-append_tag key tag lists hs)
]

abbrev Tidy : TagLists → Type 0
Tidy lists = AreDistinct lists × AreSome lists

-- One step of the loop, for any rest of a text.
Tidy-step :
    (k : ℕ) (key rest category : Text) (is_exact : Bool) (tags : List Tag) (nodes nodes' : Children)
    (lists : TagLists)
    → Tidy lists
    → ((ns : Children) (ls : TagLists) → Tidy ls → Tidy (split_tags k tags ns ls).1)
    → Tidy (
        (elim rest as (λ _. Children × TagLists) [
          | [] ↦ split_tags k tags nodes' lists
          | c ∷ r ↦ split_tags k tags nodes (append_tag key (c ∷ r, category, is_exact) lists)
        ]).1)
Tidy-step k key [] category is_exact tags nodes nodes' lists h more = more nodes' lists h
Tidy-step k key (c ∷ r) category is_exact tags nodes nodes' lists (h, g) more =
    more nodes (append_tag key (c ∷ r, category, is_exact) lists) (
      AreDistinct-append_tag key (c ∷ r, category, is_exact) lists h,
      AreSome-append_tag key (c ∷ r, category, is_exact) lists g,
    )

pub split_tags-AreDistinct :
    (k : ℕ) (tags : List Tag) (nodes : Children) (lists : TagLists)
    → AreDistinct lists × AreSome lists
    → AreDistinct (split_tags k tags nodes lists).1 × AreSome (split_tags k tags nodes lists).1
unfolding split_tags
split_tags-AreDistinct k [] nodes lists h = h
split_tags-AreDistinct k ((text, category, is_exact) ∷ tags) nodes lists h =
    Tidy-step k (take k text) (drop k text) category is_exact tags nodes
      (put_child (take k text) (end_node category is_exact) nodes) lists h
      (λ ns ls. split_tags-AreDistinct k tags ns ls)

tags_of-IsAbsent : (key : Text) (lists : TagLists) → IsAbsent key lists → tags_of key lists ≡ []
tags_of-IsAbsent key [] h = refl
tags_of-IsAbsent key ((other, tags) ∷ lists) (h, hs) = rw h (tags_of-IsAbsent key lists hs)

-- What holds of the tags at every key holds of every list.
pub All-tags_of :
    (Q : List Tag → Type 0) (lists : TagLists)
    → Q []
    → AreDistinct lists
    → ((key : Text) → Q (tags_of key lists))
    → All (λ l. Q l.1) lists
All-tags_of Q [] q distinct h = tt
All-tags_of Q ((key, tags) ∷ lists) q (absent, distinct) h =
    let same : text_eq key key ≡ true = (text_eq_iff key key).1 refl in
    (
      (rw same at (h key)),
      All-tags_of Q lists q distinct (λ other. elim (Bool-cases (text_eq key other)) [
        | inl e ↦
            let equal : key ≡ other = (text_eq_iff key other).0 e in
            let gone = tags_of-IsAbsent key lists absent in rw (← equal) (rw gone q)
        | inr e ↦ (rw e at (h other))
      ]),
    )

-- The node with its sub-tree.
abbrev pub joined : Option Tree → Tree → Tree
joined none sub_tree = sub_tree
joined (some old) sub_tree = update_node old sub_tree

child_of-put_sub_tree :
    (other key : Text) (sub_tree : Tree) (nodes : Children)
    → child_of other (put_sub_tree key sub_tree nodes) ≡ (
        if text_eq key other
        then some (joined (child_of key nodes) sub_tree)
        else child_of other nodes)
unfolding put_sub_tree
child_of-put_sub_tree other key sub_tree nodes = elim (Option-cases (child_of key nodes)) [
  | inl e ↦ rw (e, put_sub_tree) (child_of-put_child other key sub_tree nodes)
  | inr (old, e) ↦
      rw (e, put_sub_tree) (child_of-put_child other key (update_node old sub_tree) nodes)
]

module _ (build : List Tag → Option Tree) where
  abbrev pub AreBuilt : TagLists → Type 0
  AreBuilt lists =
      All {A = Text × List Tag} (λ l. (sub_tree : Tree) × (build l.1 ≡ some sub_tree)) lists

  pub put_sub_trees-some :
      (lists : TagLists) (nodes : Children)
      → AreBuilt lists
      → (children : Children) × (put_sub_trees build lists nodes ≡ some children)
  unfolding put_sub_trees
  put_sub_trees-some [] nodes h = (nodes, refl)
  put_sub_trees-some ((key, tags) ∷ lists) nodes ((sub_tree, e), hs) =
      let (children, more) = put_sub_trees-some lists (put_sub_tree key sub_tree nodes) hs in
      (children, rw (e, put_sub_trees) more)

  put_sub_trees-absent :
      (key : Text) (lists : TagLists) (nodes children : Children)
      → AreBuilt lists
      → IsAbsent key lists
      → put_sub_trees build lists nodes ≡ some children
      → child_of key children ≡ child_of key nodes
  unfolding put_sub_trees
  put_sub_trees-absent key [] nodes children built absent h = ap (child_of key) (cc h)
  put_sub_trees-absent key ((other, tags) ∷ lists) nodes children ((sub_tree, e), built) (n, absent)
        h =
      put_sub_trees-absent key lists (put_sub_tree other sub_tree nodes) children built absent
        (rw (e, put_sub_trees) at h)
      ∙ child_of-put_sub_tree key other sub_tree nodes
      ∙ rw n refl

  -- What is at a key behind the loop: the node from before, joined with the sub-tree of the tags there.
  abbrev pub AtKey : Text → List Tag → Option Tree → Option Tree → Type 0
  AtKey key tags before behind =
      ((tags ≡ []) × (behind ≡ before))
      ⊎ ((sub_tree : Tree) × (build tags ≡ some sub_tree)
          × (1 ≤ length tags)
          × (behind ≡ some (joined before sub_tree)))

  pub put_sub_trees-AtKey :
      (key : Text) (lists : TagLists) (nodes children : Children)
      → AreBuilt lists
      → AreSome lists
      → AreDistinct lists
      → put_sub_trees build lists nodes ≡ some children
      → AtKey key (tags_of key lists) (child_of key nodes) (child_of key children)
  unfolding put_sub_trees
  put_sub_trees-AtKey key [] nodes children built filled distinct h =
      inl (refl, ap (child_of key) (cc h))
  put_sub_trees-AtKey key ((other, tags) ∷ lists) nodes children ((sub_tree, e), built) (f, filled)
        (absent, distinct) h =
      let rest : put_sub_trees build lists (put_sub_tree other sub_tree nodes) ≡ some children =
        rw (e, put_sub_trees) at h in
      let put = child_of-put_sub_tree key other sub_tree nodes in
      elim (Bool-cases (text_eq other key)) [
        | inl hit ↦
            let same : other ≡ key = (text_eq_iff other key).0 hit in
            let gone : IsAbsent key lists = subst (λ k. IsAbsent k lists) same absent in
            rw hit (
              inr (
                sub_tree,
                e,
                f,
                put_sub_trees-absent key lists (put_sub_tree other sub_tree nodes) children built
                      gone rest
                    ∙ put
                    ∙ rw hit (ap (λ k. some (joined (child_of k nodes) sub_tree)) same),
              ))
        | inr miss ↦
            let before : child_of key (put_sub_tree other sub_tree nodes) ≡ child_of key nodes =
              put ∙ rw miss refl in
            rw miss (
              subst (λ b. AtKey key (tags_of key lists) b (child_of key children)) before
                (put_sub_trees-AtKey key lists (put_sub_tree other sub_tree nodes) children built
                  filled distinct rest))
      ]
