-- ===== src/Charts/Perf/Instance/Search.antt =====
-- The search for an instance of a kernel by its number.
use pti_gpu_itt_only.Base.{
  ℕ, zero, suc, ◌+◌, ◌-◌, ◌≤◌, ◌≡◌, ◌∙◌, refl, sym, ap, arith, Bool, true, false, List, [], ◌∷◌,
  ◌++◌, Option, none, some, if◌then◌else◌, length, slice-middle, get_elem?, Bool-cases, inl, inr,
  ◌==◌, ◌⊎◌,
}
use pti_gpu_itt_only.Text.{Text, text_eq}
use pti_gpu_itt_only.Charts.{or_end}
use pti_gpu_itt_only.Charts.Perf.Instance.Blocks.{
  blocks_of, instances_of, first_block, behind_block, later_blocks, first_block-behind,
  instances_of-other, instances_of-counted,
}
use pti_gpu_itt_only.Charts.Perf.Instance.{
  PerfRow, Count, count_row, find_instance, start_count, instance_rows,
}

count_row_passed :
    (kernel name : Text) (n index k : ℕ) (start : Option ℕ)
    → count_row kernel n index name (record { k = k; counting = false; start = start })
      ≡ record { k = k; counting = false; start = start }
unfolding count_row
count_row_passed kernel name n index k start = ground arith

count_row_other :
    (kernel name : Text) (n index k : ℕ) (start : Option ℕ) (counting : Bool)
    → text_eq name kernel ≡ false
    → count_row kernel n index name (record { k = k; counting = counting; start = start })
      ≡ record { k = k; counting = counting; start = start }
unfolding count_row
count_row_other kernel name n index k start counting h = rw (h, count_row) refl

count_row_counted :
    (kernel name : Text) (n index k : ℕ) (start : Option ℕ)
    → text_eq name kernel ≡ true
    → count_row kernel n index name (record { k = k; counting = true; start = start })
      ≡ record { k = k + 1; counting = false; start = if k + 1 == n then some index else start }
unfolding count_row
count_row_counted kernel name n index k start h = rw (h, count_row) refl

abbrev counted : ℕ → Bool → Count
counted k counting = record { k = k; counting = counting; start = none }

module _ {ℓ} {Cells : Type ℓ} where
  -- Once the instance is found, the loop goes on to the end of its block.
  record StopsAt (kernel : Text) (n index k start : ℕ) (rows : List (PerfRow Cells)) : Type 0 where
    pub begun :
        (find_instance kernel n index rows
          (record { k = k; counting = false; start = some start })).0
        ≡ some start
    pub at :
        or_end
          (find_instance kernel n index rows
            (record { k = k; counting = false; start = some start })).1
          (index + length rows)
        ≡ index + length (first_block rows)

  find_instance-StopsAt :
      (kernel : Text) (n index k start : ℕ) (rows : List (PerfRow Cells))
      → StopsAt kernel n index k start rows
  unfolding find_instance
  find_instance-StopsAt kernel n index k start [] = record { begun = refl; at = refl }
  find_instance-StopsAt kernel n index k start ((none, c) ∷ rows) = record {
    begun = refl;
    at = omega arith;
  }
  find_instance-StopsAt kernel n index k start ((some name, c) ∷ rows) =
      let more = find_instance-StopsAt kernel n (index + 1) k start rows in
      let same = count_row_passed kernel name n index k (some start) in
      record {
        begun = ap (λ s. (find_instance kernel n (index + 1) rows s).0) same ∙ more.begun;
        at =
            ap
              (λ s.
                or_end (find_instance kernel n (index + 1) rows s).1 (index + suc (length rows)))
              same
            ∙ ap
                (or_end
                  (find_instance kernel n (index + 1) rows
                    (record { k = k; counting = false; start = some start })).1)
                (omega arith)
            ∙ more.at
            ∙ omega arith;
      }

  -- The rows that the loop finds in the rest of the table, and where.
  record FoundAt (kernel : Text) (n index : ℕ) (rest : List (PerfRow Cells)) (s : Count)
      (target : Option (List (PerfRow Cells))) : Type ℓ where
    pub before : List (PerfRow Cells)
    pub this : List (PerfRow Cells)
    pub after : List (PerfRow Cells)
    pub whole : rest ≡ before ++ (this ++ after)
    pub is_target : target ≡ some this
    pub begun : (find_instance kernel n index rest s).0 ≡ some (index + length before)
    pub at :
        or_end (find_instance kernel n index rest s).1 (index + length rest)
        ≡ index + length before + length this

  abbrev Found :
      Text → ℕ → ℕ → List (PerfRow Cells) → Count → Option (List (PerfRow Cells)) → Type ℓ
  Found kernel n index rest s target =
      (((find_instance kernel n index rest s).0 ≡ none) × (target ≡ none))
      ⊎ FoundAt kernel n index rest s target

  -- One row more, which the loop passes over.
  Found-cons :
      (kernel : Text) (n index : ℕ) (row : PerfRow Cells) (rest : List (PerfRow Cells))
      (s t : Count) (target target' : Option (List (PerfRow Cells)))
      → find_instance kernel n index (row ∷ rest) s ≡ find_instance kernel n (index + 1) rest t
      → target' ≡ target
      → Found kernel n (index + 1) rest t target
      → Found kernel n index (row ∷ rest) s target'
  Found-cons kernel n index row rest s t target target' e same (inl (not_found, no_target)) =
      inl (ap (λ r. r.0) e ∙ not_found, same ∙ no_target)
  Found-cons kernel n index row rest s t target target' e same (inr f) = inr (record {
    before = row ∷ f.before;
    this = f.this;
    after = f.after;
    whole = ap (◌∷◌ row) f.whole;
    is_target = same ∙ f.is_target;
    begun = ap (λ r. r.0) e ∙ f.begun ∙ ap some (omega arith);
    at =
        ap (λ r. or_end r.1 (index + suc (length rest))) e
        ∙ ap (or_end (find_instance kernel n (index + 1) rest t).1) (omega arith)
        ∙ f.at
        ∙ omega arith;
  })

  -- The blocks where the kernel is still looked for.
  abbrev open_blocks : Bool → List (PerfRow Cells) → List (List (PerfRow Cells))
  open_blocks true rest = blocks_of rest
  open_blocks false rest = later_blocks rest

  -- The first row of an instance: the one looked for, or one more that is counted.
  find_instance_counted :
      (kernel name : Text) (n m index k : ℕ) (c : Cells) (rest : List (PerfRow Cells))
      → n ≡ k + 1 + m
      → text_eq name kernel ≡ true
      → ((m' : ℕ)
          → n ≡ k + 1 + 1 + m'
          → Found kernel n
              (index + 1)
              rest
              (counted (k + 1) false)
              (get_elem? (instances_of kernel (later_blocks rest)) m'))
      → Found kernel n index
          ((some name, c) ∷ rest)
          (counted k true)
          (get_elem? (instances_of kernel (blocks_of ((some name, c) ∷ rest))) m)
  unfolding find_instance
  find_instance_counted kernel name n zero index k c rest h equal later =
      let hit : (k + 1 == n) ≡ true = ground arith in
      let step : count_row kernel n index name (counted k true)
          ≡ record { k = k + 1; counting = false; start = some index } =
        count_row_counted kernel name n index k none equal ∙ rw (hit) refl in
      let more = find_instance-StopsAt kernel n (index + 1) (k + 1) index rest in
      inr (record {
        before = [];
        this = (some name, c) ∷ first_block rest;
        after = behind_block rest;
        whole = ap (◌∷◌ (some name, c)) (first_block-behind rest);
        is_target = ap (λ xs. get_elem? xs 0) (instances_of-counted kernel name c rest equal);
        begun =
            ap (λ s. (find_instance kernel n (index + 1) rest s).0) step
            ∙ more.begun
            ∙ ap some (omega arith);
        at =
            ap
              (λ s.
                or_end (find_instance kernel n (index + 1) rest s).1 (index + suc (length rest)))
              step
            ∙ ap
                (or_end
                  (find_instance kernel n (index + 1) rest
                    (record { k = k + 1; counting = false; start = some index })).1)
                (omega arith)
            ∙ more.at
            ∙ omega arith;
      })
  find_instance_counted kernel name n (suc m) index k c rest h equal later =
      let miss : (k + 1 == n) ≡ false = ground arith in
      let step : count_row kernel n index name (counted k true) ≡ counted (k + 1) false =
        count_row_counted kernel name n index k none equal ∙ rw (miss) refl in
      Found-cons kernel n index (some name, c) rest (counted k true) (counted (k + 1) false)
        (get_elem? (instances_of kernel (later_blocks rest)) m)
        (get_elem? (instances_of kernel (blocks_of ((some name, c) ∷ rest))) (suc m))
        (ap (find_instance kernel n (index + 1) rest) step)
        (ap (λ xs. get_elem? xs (suc m)) (instances_of-counted kernel name c rest equal))
        (later m (omega arith))

  find_instance-Found :
      (kernel : Text) (n m index k : ℕ) (counting : Bool) (rest : List (PerfRow Cells))
      → n ≡ k + 1 + m
      → Found kernel n index rest
          (counted k counting)
          (get_elem? (instances_of kernel (open_blocks counting rest)) m)
  unfolding find_instance
  find_instance-Found kernel n m index k true [] h = inl (refl, refl)
  find_instance-Found kernel n m index k false [] h = inl (refl, refl)
  find_instance-Found kernel n m index k true ((none, c) ∷ rest) h =
      Found-cons kernel n index (none, c) rest (counted k true) (counted k true)
        (get_elem? (instances_of kernel (blocks_of rest)) m)
        (get_elem? (instances_of kernel (blocks_of rest)) m) refl refl
        (find_instance-Found kernel n m (index + 1) k true rest h)
  find_instance-Found kernel n m index k false ((none, c) ∷ rest) h =
      Found-cons kernel n index (none, c) rest (counted k false) (counted k true)
        (get_elem? (instances_of kernel (blocks_of rest)) m)
        (get_elem? (instances_of kernel (blocks_of rest)) m) refl refl
        (find_instance-Found kernel n m (index + 1) k true rest h)
  find_instance-Found kernel n m index k false ((some name, c) ∷ rest) h =
      Found-cons kernel n index (some name, c) rest (counted k false) (counted k false)
        (get_elem? (instances_of kernel (later_blocks rest)) m)
        (get_elem? (instances_of kernel (later_blocks rest)) m)
        (ap (find_instance kernel n (index + 1) rest) (count_row_passed kernel name n index k none))
        refl (find_instance-Found kernel n m (index + 1) k false rest h)
  find_instance-Found kernel n m index k true ((some name, c) ∷ rest) h =
      elim (Bool-cases (text_eq name kernel)) [
        | inr unequal ↦
            Found-cons kernel n index (some name, c) rest (counted k true) (counted k true)
              (get_elem? (instances_of kernel (blocks_of rest)) m)
              (get_elem? (instances_of kernel (blocks_of ((some name, c) ∷ rest))) m)
              (ap (find_instance kernel n (index + 1) rest)
                (count_row_other kernel name n index k none true unequal))
              (ap (λ xs. get_elem? xs m) (instances_of-other kernel name c rest unequal))
              (find_instance-Found kernel n m (index + 1) k true rest h)
        | inl equal ↦
            find_instance_counted kernel name n m index k c rest h equal
              (λ m' h'. find_instance-Found kernel n m' (index + 1) (k + 1) false rest h')
      ]

  -- The instances of a kernel in the table are its blocks between blank rows that have a row of the
  -- kernel, each from its first such row on. For every number from 1 on, the search for the instance
  -- of that number gives the rows of that instance, or `none` if there are not so many.
  pub instance_rows-instances_of :
      (kernel : Text) (instance_number : ℕ) (df : List (PerfRow Cells))
      → 1 ≤ instance_number
      → instance_rows kernel instance_number df
        ≡ get_elem? (instances_of kernel (blocks_of df)) (instance_number - 1)
  unfolding instance_rows
  instance_rows-instances_of kernel instance_number df h =
      elim (find_instance-Found kernel instance_number (instance_number - 1) 0 0 true df
        (omega arith)) [
          | inl (not_found, no_target) ↦ rw (not_found, instance_rows) (sym no_target)
          | inr f ↦
              rw (f.begun, instance_rows)
                (ap some (
                    slice-middle (0 + length f.before)
                      (or_end (find_instance kernel instance_number 0 df start_count).1 (length df))
                      df f.before f.this f.after f.whole (omega arith)
                      (ap (or_end (find_instance kernel instance_number 0 df start_count).1)
                          (omega arith)
                        ∙ f.at
                        ∙ omega arith))
                  ∙ sym f.is_target)
        ]
