-- ===== src/Listing/Kernels.antt =====
-- The kernels that `List` gathers from a table of stalls.
use pti_gpu_itt_only.Base.{
  ℕ, ◌+◌, ◌≡◌, ◌∙◌, refl, ap, arith, Bool, true, false, ◌||◌, List, [], ◌∷◌, ◌++◌, if◌then◌else◌,
  Bool-cases, inl, inr,
}
use pti_gpu_itt_only.Text.{Text, text_eq, text_eq_iff}
use pti_gpu_itt_only.Listing.Whole.{is_listed, distinct_kernels}

abbrev one_if : Bool → ℕ
one_if true = 1
one_if false = 0

-- How often a kernel is in a list.
abbrev pub times : Text → List Text → ℕ
times kernel [] = 0
times kernel (other ∷ kernels) = one_if (text_eq other kernel) + times kernel kernels

times-append :
    (kernel other : Text) (kernels : List Text)
    → times kernel (kernels ++ other ∷ []) ≡ times kernel kernels + one_if (text_eq other kernel)
times-append kernel other [] = omega arith
times-append kernel other (first ∷ kernels) = omega (arith, times-append kernel other kernels)

is_listed-append :
    (kernel other : Text) (kernels : List Text)
    → is_listed kernel (kernels ++ other ∷ []) ≡ (is_listed kernel kernels || text_eq other kernel)
unfolding is_listed
is_listed-append kernel other [] = ground arith
is_listed-append kernel other (first ∷ kernels) =
    ground (arith, is_listed-append kernel other kernels)

abbrev IsOnce : List Text → Type 0
IsOnce kernels = (kernel : Text) → times kernel kernels ≡ one_if (is_listed kernel kernels)

IsOnce-append :
    (other : Text) (kernels : List Text)
    → IsOnce kernels
    → is_listed other kernels ≡ false
    → IsOnce (kernels ++ other ∷ [])
IsOnce-append other kernels once new kernel = elim (Bool-cases (text_eq other kernel)) [
  | inl e ↦
      let same : other ≡ kernel = (text_eq_iff other kernel).0 e in
      let new' : is_listed kernel kernels ≡ false = rw same at new in
      ground (
        arith,
        times-append kernel other kernels,
        is_listed-append kernel other kernels,
        once kernel,
        new',
        e,
      )
  | inr e ↦ ground (
    arith,
    times-append kernel other kernels,
    is_listed-append kernel other kernels,
    once kernel,
    e,
  )
]

is_listed-step :
    (kernel other : Text) (rows kernels : List Text)
    → is_listed other kernels ≡ true
    → (is_listed kernel kernels || is_listed kernel rows)
      ≡ (is_listed kernel kernels || is_listed kernel (other ∷ rows))
unfolding is_listed
is_listed-step kernel other rows kernels old = elim (Bool-cases (text_eq other kernel)) [
  | inl e ↦
      let same : other ≡ kernel = (text_eq_iff other kernel).0 e in
      let old' : is_listed kernel kernels ≡ true = rw same at old in ground (arith, old')
  | inr e ↦ ground (arith, e)
]

times-from :
    (kernel : Text) (rows kernels : List Text)
    → IsOnce kernels
    → times kernel (distinct_kernels rows kernels)
      ≡ one_if (is_listed kernel kernels || is_listed kernel rows)
unfolding distinct_kernels is_listed
times-from kernel [] kernels once = once kernel ∙ ground arith
times-from kernel (other ∷ rows) kernels once = elim (Bool-cases (is_listed other kernels)) [
  | inl e ↦
      rw (e, distinct_kernels)
        (times-from kernel rows kernels once
          ∙ ap one_if (is_listed-step kernel other rows kernels e))
  | inr e ↦
      rw (e, distinct_kernels)
        (times-from kernel rows (kernels ++ other ∷ []) (IsOnce-append other kernels once e)
          ∙ ap one_if (
              ap (λ b. b || is_listed kernel rows) (is_listed-append kernel other kernels)
              ∙ ground arith))
]

-- Of the kernels listed for a table of stalls, each kernel that a row of the table has is there once, and
-- no other is there.
pub times-distinct_kernels :
    (kernel : Text) (rows : List Text)
    → times kernel (distinct_kernels rows []) ≡ (if is_listed kernel rows then 1 else 0)
unfolding is_listed
times-distinct_kernels kernel rows = times-from kernel rows [] (λ k. refl) ∙ ground arith
