-- ===== src/Summary/Tags/Nodes.antt =====
-- The dictionaries that the loops of `build_search_tree` fill.
use pti_gpu_itt_only.Base.{
  ℕ, ◌≡◌, ◌∙◌, refl, sym, ap, arith, Bool, true, false, List, [], ◌∷◌, ◌++◌, Option, none, some,
  if◌then◌else◌, take, drop, Bool-cases, inl, inr, ◌⊎◌, Option-cases, append-nil, append_assoc,
}
use pti_gpu_itt_only.Text.{Text, text_eq, text_eq_iff}
use pti_gpu_itt_only.Summary.{Tree, Children, no_child, child, child_of}
use pti_gpu_itt_only.Summary.Tags.{Tag, TagLists, put_child, append_tag, end_node, split_tags}
use pti_gpu_itt_only.Summary.Tags.Walk.{last_empty, longer, under}

pub child_of-put_child :
    (other key : Text) (tree : Tree) (nodes : Children)
    → child_of other (put_child key tree nodes)
      ≡ (if text_eq key other then some tree else child_of other nodes)
unfolding child_of put_child
child_of-put_child other key tree no_child = refl
child_of-put_child other key tree (child k old nodes) = ground (
  arith,
  text_eq_iff k key,
  text_eq_iff k other,
  text_eq_iff key other,
  child_of-put_child other key tree nodes,
)

abbrev pub tags_of : Text → TagLists → List Tag
tags_of key [] = []
tags_of key ((other, tags) ∷ lists) = if text_eq other key then tags else tags_of key lists

tags_of-append_tag :
    (other key : Text) (tag : Tag) (lists : TagLists)
    → tags_of other (append_tag key tag lists)
      ≡ (if text_eq key other then tags_of other lists ++ tag ∷ [] else tags_of other lists)
unfolding append_tag
tags_of-append_tag other key tag [] = refl
tags_of-append_tag other key tag ((k, tags) ∷ lists) = ground (
  arith,
  text_eq_iff k key,
  text_eq_iff k other,
  text_eq_iff key other,
  tags_of-append_tag other key tag lists,
)

-- The node of the last tag that ends at a key, or the one there before.
abbrev pub or_end_node : Option (Text × Bool) → Option Tree → Option Tree
or_end_node none old = old
or_end_node (some (category, is_exact)) old = some (end_node category is_exact)

List-cases : (xs : Text) → (xs ≡ []) ⊎ ((c : ℕ) × (rest : Text) × (xs ≡ c ∷ rest))
List-cases [] = inl refl
List-cases (c ∷ rest) = inr (c, rest, refl)

under-cons_eq :
    (k : ℕ) (key text rest category : Text) (is_exact : Bool) (tags : List Tag)
    → drop k text ≡ rest
    → text_eq (take k text) key ≡ true
    → under k key ((text, category, is_exact) ∷ tags)
      ≡ (rest, category, is_exact) ∷ under k key tags
under-cons_eq k key text rest category is_exact tags e hit = rw hit (rw e refl)

under-cons_ne :
    (k : ℕ) (key text category : Text) (is_exact : Bool) (tags : List Tag)
    → text_eq (take k text) key ≡ false
    → under k key ((text, category, is_exact) ∷ tags) ≡ under k key tags
under-cons_ne k key text category is_exact tags miss = rw miss refl

last_empty-cons :
    (category : Text) (is_exact : Bool) (tags : List Tag) (old : Option Tree)
    → or_end_node (last_empty (([], category, is_exact) ∷ tags)) old
      ≡ or_end_node (last_empty tags) (some (end_node category is_exact))
last_empty-cons category is_exact tags old = elim (Option-cases (last_empty tags)) [
  | inl e ↦ rw e refl
  | inr (later, e) ↦ rw e refl
]

split_tags-ended :
    (k : ℕ) (text category : Text) (is_exact : Bool) (tags : List Tag) (nodes : Children)
    (lists : TagLists)
    → drop k text ≡ []
    → split_tags k ((text, category, is_exact) ∷ tags) nodes lists
      ≡ split_tags k tags (put_child (take k text) (end_node category is_exact) nodes) lists
unfolding split_tags
split_tags-ended k text category is_exact tags nodes lists e = rw (e, split_tags) refl

split_tags-open :
    (k : ℕ) (text category : Text) (is_exact : Bool) (tags : List Tag) (nodes : Children)
    (lists : TagLists) (c : ℕ) (rest : Text)
    → drop k text ≡ c ∷ rest
    → split_tags k ((text, category, is_exact) ∷ tags) nodes lists
      ≡ split_tags k tags nodes (append_tag (take k text) (c ∷ rest, category, is_exact) lists)
unfolding split_tags
split_tags-open k text category is_exact tags nodes lists c rest e = rw (e, split_tags) refl

-- What the loop over the tags leaves at a key.
pub record AtEachKey (k : ℕ) (key : Text) (tags : List Tag) (nodes : Children) (lists : TagLists)
    : Type 0 where
  pub ended :
      child_of key (split_tags k tags nodes lists).0
      ≡ or_end_node (last_empty (under k key tags)) (child_of key nodes)
  pub open_tags :
      tags_of key (split_tags k tags nodes lists).1 ≡ tags_of key lists ++ longer (under k key tags)

pub split_tags-AtEachKey :
    (k : ℕ) (key : Text) (tags : List Tag) (nodes : Children) (lists : TagLists)
    → AtEachKey k key tags nodes lists
unfolding split_tags
split_tags-AtEachKey k key [] nodes lists = record {
  ended = refl;
  open_tags = sym (append-nil (tags_of key lists));
}
split_tags-AtEachKey k key ((text, category, is_exact) ∷ tags) nodes lists =
    elim (List-cases (drop k text)) [
      | inl e ↦
          let step = split_tags-ended k text category is_exact tags nodes lists e in
          let more =
            split_tags-AtEachKey k key tags
              (put_child (take k text) (end_node category is_exact) nodes) lists in
          let put = child_of-put_child key (take k text) (end_node category is_exact) nodes in
          elim (Bool-cases (text_eq (take k text) key)) [
            | inl hit ↦
                let same = under-cons_eq k key text [] category is_exact tags e hit in
                record {
                  ended =
                      ap (λ (r : Children × TagLists). child_of key r.0) step
                      ∙ (more.ended
                          ∙ ap (or_end_node (last_empty (under k key tags))) (put ∙ rw hit refl)
                          ∙ sym (
                              last_empty-cons category is_exact (under k key tags)
                                (child_of key nodes))
                          ∙ ap (λ ts. or_end_node (last_empty ts) (child_of key nodes)) (sym same));
                  open_tags =
                      ap (λ (r : Children × TagLists). tags_of key r.1) step
                      ∙ (more.open_tags ∙ ap (λ ts. tags_of key lists ++ longer ts) (sym same));
                }
            | inr miss ↦
                let same = under-cons_ne k key text category is_exact tags miss in
                record {
                  ended =
                      ap (λ (r : Children × TagLists). child_of key r.0) step
                      ∙ (more.ended
                          ∙ ap (or_end_node (last_empty (under k key tags))) (put ∙ rw miss refl)
                          ∙ ap (λ ts. or_end_node (last_empty ts) (child_of key nodes)) (sym same));
                  open_tags =
                      ap (λ (r : Children × TagLists). tags_of key r.1) step
                      ∙ (more.open_tags ∙ ap (λ ts. tags_of key lists ++ longer ts) (sym same));
                }
          ]
      | inr (c, rest, e) ↦
          let step = split_tags-open k text category is_exact tags nodes lists c rest e in
          let more =
            split_tags-AtEachKey k key tags nodes
              (append_tag (take k text) (c ∷ rest, category, is_exact) lists) in
          let put = tags_of-append_tag key (take k text) (c ∷ rest, category, is_exact) lists in
          elim (Bool-cases (text_eq (take k text) key)) [
            | inl hit ↦
                let same = under-cons_eq k key text (c ∷ rest) category is_exact tags e hit in
                record {
                  ended =
                      ap (λ (r : Children × TagLists). child_of key r.0) step
                      ∙ (more.ended
                          ∙ ap (λ ts. or_end_node (last_empty ts) (child_of key nodes)) (sym same));
                  open_tags =
                      ap (λ (r : Children × TagLists). tags_of key r.1) step
                      ∙ (more.open_tags
                          ∙ ap (λ ts. ts ++ longer (under k key tags)) (put ∙ rw hit refl)
                          ∙ append_assoc (tags_of key lists) ((c ∷ rest, category, is_exact) ∷ [])
                              (longer (under k key tags))
                          ∙ ap (λ ts. tags_of key lists ++ longer ts) (sym same));
                }
            | inr miss ↦
                let same = under-cons_ne k key text category is_exact tags miss in
                record {
                  ended =
                      ap (λ (r : Children × TagLists). child_of key r.0) step
                      ∙ (more.ended
                          ∙ ap (λ ts. or_end_node (last_empty ts) (child_of key nodes)) (sym same));
                  open_tags =
                      ap (λ (r : Children × TagLists). tags_of key r.1) step
                      ∙ (more.open_tags
                          ∙ ap (λ ts. ts ++ longer (under k key tags)) (put ∙ rw miss refl)
                          ∙ ap (λ ts. tags_of key lists ++ longer ts) (sym same));
                }
          ]
    ]
