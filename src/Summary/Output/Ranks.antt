-- ===== src/Summary/Output/Ranks.antt =====
-- What `min_p_1` and `max_m_1` take from three values or more.
use mathlib.Core.Path.{subst}
use pti_gpu_itt_only.Base.{
  ℕ, suc, ◌+◌, ◌≤◌, ◌≡◌, ◌∙◌, refl, sym, ap, arith, Bool, List, [], ◌∷◌, length, leb, ltb,
  if◌then◌else◌, Bool-cases, inl, inr,
}
use pti_gpu_itt_only.Summary.Output.{insert_value, sorted, min_p_1, last_but_one, max_m_1}

-- How many of the values pass a test.
abbrev pub count : (ℕ → Bool) → List ℕ → ℕ
count test [] = 0
count test (x ∷ xs) = (if test x then 1 else 0) + count test xs

abbrev IsSorted : List ℕ → Type 0
IsSorted [] = Unit
IsSorted (x ∷ []) = Unit
IsSorted (x ∷ y ∷ ys) = (x ≤ y) × IsSorted (y ∷ ys)

count-insert_value :
    (test : ℕ → Bool) (x : ℕ) (ys : List ℕ) → count test (insert_value x ys) ≡ count test (x ∷ ys)
unfolding insert_value
count-insert_value test x [] = refl
count-insert_value test x (y ∷ ys) = elim (Bool-cases (leb x y)) [
  | inl e ↦ rw e refl
  | inr e ↦ rw e (omega (arith, count-insert_value test x ys))
]

count-sorted : (test : ℕ → Bool) (xs : List ℕ) → count test (sorted xs) ≡ count test xs
unfolding sorted
count-sorted test [] = refl
count-sorted test (x ∷ xs) =
    omega (arith, count-insert_value test x (sorted xs), count-sorted test xs)

insert_value-IsSorted : (x : ℕ) (ys : List ℕ) → IsSorted ys → IsSorted (insert_value x ys)
unfolding insert_value
insert_value-IsSorted x [] h = tt
insert_value-IsSorted x (y ∷ []) h = ground arith
insert_value-IsSorted x (y ∷ z ∷ zs) (h, hs) = ground (arith, insert_value-IsSorted x (z ∷ zs) hs)

sorted-IsSorted : (xs : List ℕ) → IsSorted (sorted xs)
unfolding sorted
sorted-IsSorted [] = tt
sorted-IsSorted (x ∷ xs) = insert_value-IsSorted x (sorted xs) (sorted-IsSorted xs)

none_below :
    (bound y : ℕ) (ys : List ℕ)
    → bound ≤ y
    → IsSorted (y ∷ ys)
    → count (λ v. ltb v bound) (y ∷ ys) ≡ 0
none_below bound y [] h sorted_ys = ground arith
none_below bound y (z ∷ ys) h (le, hs) = ground (arith, none_below bound z ys (omega arith) hs)

last_but_one-least : (x y : ℕ) (ys : List ℕ) → IsSorted (x ∷ y ∷ ys) → x ≤ last_but_one x y ys
last_but_one-least x y [] h = omega arith
last_but_one-least x y (z ∷ ys) (h, hs) = omega (arith, last_but_one-least y z ys hs)

last_but_one-above :
    (x y : ℕ) (ys : List ℕ)
    → IsSorted (x ∷ y ∷ ys)
    → (count (λ v. ltb (last_but_one x y ys) v) (x ∷ y ∷ ys) ≤ 1)
      × (2 ≤ count (λ v. leb (last_but_one x y ys) v) (x ∷ y ∷ ys))
last_but_one-above x y [] (h, hs) = ground arith
last_but_one-above x y (z ∷ ys) (h, hs) =
    let (above, at_least) = last_but_one-above y z ys hs in
    ground (arith, above, at_least, last_but_one-least y z ys hs)

List-cases :
    (xs : List ℕ)
    → 3 ≤ length xs
    → (x : ℕ) × (y : ℕ) × (z : ℕ) × (zs : List ℕ) × (xs ≡ x ∷ y ∷ z ∷ zs)
List-cases [] h = absurd (omega arith)
List-cases (x ∷ []) h = absurd (omega arith)
List-cases (x ∷ y ∷ []) h = absurd (omega arith)
List-cases (x ∷ y ∷ z ∷ zs) h = (x, y, z, zs, refl)

length-insert_value : (x : ℕ) (ys : List ℕ) → length (insert_value x ys) ≡ suc (length ys)
unfolding insert_value
length-insert_value x [] = refl
length-insert_value x (y ∷ ys) = elim (Bool-cases (leb x y)) [
  | inl e ↦ rw e refl
  | inr e ↦ rw e (omega (arith, length-insert_value x ys))
]

length-sorted : (xs : List ℕ) → length (sorted xs) ≡ length xs
unfolding sorted
length-sorted [] = refl
length-sorted (x ∷ xs) = omega (arith, length-insert_value x (sorted xs), length-sorted xs)

second_of :
    (x y : ℕ) (ys : List ℕ)
    → IsSorted (x ∷ y ∷ ys)
    → (count (λ v. ltb v y) (x ∷ y ∷ ys) ≤ 1) × (2 ≤ count (λ v. leb v y) (x ∷ y ∷ ys))
second_of x y ys (h, hs) = ground (arith, none_below y y ys (omega arith) hs)

-- Of three values or more, `min_p_1` takes one such that at most one value is smaller and at least two are
-- not greater.
pub min_p_1-second :
    (xs : List ℕ)
    → 3 ≤ length xs
    → (count (λ v. ltb v (min_p_1 xs)) xs ≤ 1) × (2 ≤ count (λ v. leb v (min_p_1 xs)) xs)
unfolding min_p_1
min_p_1-second xs h =
    let (x, y, z, zs, e) = List-cases (sorted xs) (omega (arith, length-sorted xs)) in
    let is_sorted : IsSorted (x ∷ y ∷ z ∷ zs) = rw e at (sorted-IsSorted xs) in
    let second : min_p_1 xs ≡ y = rw (e, min_p_1) refl in
    let below : count (λ v. ltb v y) (x ∷ y ∷ z ∷ zs) ≡ count (λ v. ltb v y) xs =
      ap (count (λ v. ltb v y)) (sym e) ∙ count-sorted (λ v. ltb v y) xs in
    let at_most : count (λ v. leb v y) (x ∷ y ∷ z ∷ zs) ≡ count (λ v. leb v y) xs =
      ap (count (λ v. leb v y)) (sym e) ∙ count-sorted (λ v. leb v y) xs in
    subst (λ r. (count (λ v. ltb v r) xs ≤ 1) × (2 ≤ count (λ v. leb v r) xs)) (sym second)
      (rw (← below) (rw (← at_most) (second_of x y (z ∷ zs) is_sorted)))

-- Of three values or more, `max_m_1` takes one such that at most one value is greater and at least two are
-- not smaller.
pub max_m_1-second :
    (xs : List ℕ)
    → 3 ≤ length xs
    → (count (λ v. ltb (max_m_1 xs) v) xs ≤ 1) × (2 ≤ count (λ v. leb (max_m_1 xs) v) xs)
unfolding max_m_1
max_m_1-second xs h =
    let (x, y, z, zs, e) = List-cases (sorted xs) (omega (arith, length-sorted xs)) in
    let is_sorted : IsSorted (x ∷ y ∷ z ∷ zs) = rw e at (sorted-IsSorted xs) in
    let r = last_but_one y z zs in
    let second : max_m_1 xs ≡ r = rw (e, max_m_1) refl in
    let above : count (λ v. ltb r v) (x ∷ y ∷ z ∷ zs) ≡ count (λ v. ltb r v) xs =
      ap (count (λ v. ltb r v)) (sym e) ∙ count-sorted (λ v. ltb r v) xs in
    let at_least : count (λ v. leb r v) (x ∷ y ∷ z ∷ zs) ≡ count (λ v. leb r v) xs =
      ap (count (λ v. leb r v)) (sym e) ∙ count-sorted (λ v. leb r v) xs in
    subst (λ r. (count (λ v. ltb r v) xs ≤ 1) × (2 ≤ count (λ v. leb r v) xs)) (sym second)
      (subst (λ n. (n ≤ 1) × (2 ≤ count (λ v. leb r v) xs)) above
        (subst (λ n. (count (λ v. ltb r v) (x ∷ y ∷ z ∷ zs) ≤ 1) × (2 ≤ n)) at_least
          (last_but_one-above x y (z ∷ zs) is_sorted)))
