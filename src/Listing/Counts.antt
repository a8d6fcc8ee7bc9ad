-- ===== src/Listing/Counts.antt =====
-- The numbers of instances that `List` counts.
use pti_gpu_itt_only.Base.{
  ℕ, ◌+◌, ◌≡◌, ◌≢◌, ◌∙◌, refl, sym, ap, arith, Bool, true, false, List, [], ◌∷◌, ◌++◌, none,
  if◌then◌else◌, All, Bool-cases, inl, inr,
}
use pti_gpu_itt_only.Text.{Text, text_eq, text_eq_iff}
use pti_gpu_itt_only.Charts.Perf.Instance.{PerfRow}
use pti_gpu_itt_only.Charts.Perf.All.Ended.{Instance, named_rows, table_of}
use pti_gpu_itt_only.Listing.{Counts, has_key, add_one, note_ended, count_instances}

-- The number under a name, 0 where there is none.
abbrev pub count_of : Text → Counts → ℕ
count_of k [] = 0
count_of k ((j, n) ∷ counts) = if text_eq j k then n else count_of k counts

abbrev one_if : Bool → ℕ
one_if true = 1
one_if false = 0

text_eq_through : (j c k : Text) → text_eq j c ≡ true → text_eq j k ≡ text_eq c k
text_eq_through j c k h = ap (λ t. text_eq t k) ((text_eq_iff j c).0 h)

text_eq_apart : (j c k : Text) → text_eq j c ≡ false → text_eq j k ≡ true → text_eq c k ≡ false
text_eq_apart j c k h e =
    let same : j ≡ k = (text_eq_iff j k).0 e in
    elim (Bool-cases (text_eq c k)) [
      | inr no_match ↦ no_match
      | inl match ↦
          let equal : j ≡ c = same ∙ sym ((text_eq_iff c k).0 match) in
          let hit : text_eq j c ≡ true = (text_eq_iff j c).1 equal in absurd (ground arith)
    ]

count_of-add_one :
    (k c : Text) (counts : Counts)
    → has_key c counts ≡ true
    → count_of k (add_one c counts) ≡ count_of k counts + one_if (text_eq c k)
unfolding has_key add_one
count_of-add_one k c [] h = absurd (ground arith)
count_of-add_one k c ((j, n) ∷ counts) h = elim (Bool-cases (text_eq j c)) [
  | inl e ↦ ground (arith, text_eq_through j c k e)
  | inr e ↦
      let later : has_key c counts ≡ true = ground arith in
      ground (arith, count_of-add_one k c counts later, text_eq_apart j c k e)
]

count_of-append :
    (k c : Text) (counts : Counts)
    → has_key c counts ≡ false
    → count_of k (counts ++ ((c, 1) ∷ [])) ≡ count_of k counts + one_if (text_eq c k)
unfolding has_key
count_of-append k c [] h = ground arith
count_of-append k c ((j, n) ∷ counts) h =
    let e : text_eq j c ≡ false = ground arith in
    let later : has_key c counts ≡ false = ground arith in
    ground (arith, count_of-append k c counts later, text_eq_apart j c k e)

count_of-note_ended :
    (k c : Text) (counts : Counts)
    → c ≢ []
    → count_of k (note_ended c counts) ≡ count_of k counts + one_if (text_eq c k)
unfolding note_ended
count_of-note_ended k c counts named =
    ground (arith, text_eq_iff c [], count_of-add_one k c counts, count_of-append k c counts)

module _ {ℓ} {Cells : Type ℓ} where
  -- How many of the instances are the kernel's.
  abbrev pub instances_named : Text → List (Instance Cells) → ℕ
  instances_named k [] = 0
  instances_named k (i ∷ instances) = one_if (text_eq i.kernel k) + instances_named k instances

  count_instances-named :
      (rows : List (Text × Cells)) (rest : List (PerfRow Cells)) (kernel : Text) (counts : Counts)
      → kernel ≢ []
      → count_instances (named_rows rows ++ rest) kernel counts ≡ count_instances rest kernel counts
  unfolding count_instances
  count_instances-named [] rest kernel counts named = refl
  count_instances-named ((name, c) ∷ rows) rest kernel counts named =
      let no : text_eq kernel [] ≡ false = ground (arith, text_eq_iff kernel []) in
      rw (no, count_instances) (count_instances-named rows rest kernel counts named)

  count_instances-unended :
      (rows : List (Text × Cells)) (kernel : Text) (counts : Counts)
      → count_instances (named_rows rows) kernel counts ≡ counts
  unfolding count_instances
  count_instances-unended [] kernel counts = refl
  count_instances-unended ((name, c) ∷ rows) kernel counts = count_instances-unended rows _ counts

  count_of-from :
      (k : Text) (instances : List (Instance Cells)) (unended : List (Text × Cells))
      (counts : Counts)
      → All (λ i. Instance.kernel i ≢ []) instances
      → count_of k (count_instances (table_of instances unended) [] counts)
        ≡ count_of k counts + instances_named k instances
  unfolding count_instances text_eq
  count_of-from k [] unended counts named =
      ap (count_of k) (count_instances-unended unended [] counts) ∙ omega arith
  count_of-from k (i ∷ instances) unended counts (this, named) =
      ap (count_of k) (
        count_instances-named i.others ((none, i.blank) ∷ table_of instances unended) i.kernel
          counts this)
      ∙ count_of-from k instances unended (note_ended i.kernel counts) named
      ∙ omega (arith, count_of-note_ended k i.kernel counts this)

  -- In a table of instances, each of at least one row with a kernel's name and ended by one blank row,
  -- with further rows that have names behind the last blank row, the number listed for a kernel is
  -- that of the ended instances whose first row is the kernel's; 0 stands for a kernel not listed.
  pub count_of-count_instances :
      (k : Text) (instances : List (Instance Cells)) (unended : List (Text × Cells))
      → All (λ i. Instance.kernel i ≢ []) instances
      → count_of k (count_instances (table_of instances unended) [] [])
        ≡ instances_named k instances
  count_of-count_instances k instances unended named =
      count_of-from k instances unended [] named ∙ omega arith
