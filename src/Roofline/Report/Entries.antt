-- ===== src/Roofline/Report/Entries.antt =====
-- The kernels of a roofline, and the kind of operations that it shows.
use mathlib.Core.Path.{subst}
use pti_gpu_itt_only.Base.{◌≤◌, ◌≡◌, refl, arith, List, [], ◌∷◌, All, inl, inr, ltb-cases}
use pti_gpu_itt_only.Roofline.Report.{
  Entry, Precision, in_fp16, in_fp16_xmx, in_bf16_xmx, in_fp32, in_fp64, total_flops, best_of,
  precision_of,
}

module _ {Mean : Type 0} where
  abbrev IsGreatest : List (Entry Mean) → List Precision → Precision → Type 0
  IsGreatest entry_list others r =
      All (λ p. total_flops p entry_list ≤ total_flops r entry_list) others

  best_of-IsGreatest :
      (entry_list : List (Entry Mean)) (best : Precision) (others : List Precision)
      → IsGreatest entry_list (best ∷ others) (best_of entry_list best others)
  unfolding best_of
  best_of-IsGreatest entry_list best [] = (omega arith, tt)
  best_of-IsGreatest entry_list best (next ∷ others) =
      elim (ltb-cases (total_flops best entry_list) (total_flops next entry_list)) [
        | inl (e, less) ↦
            let same : best_of entry_list next others ≡ best_of entry_list best (next ∷ others) =
              rw (e, best_of) refl in
            let (at_least, all) = best_of-IsGreatest entry_list next others in
            subst (IsGreatest entry_list (best ∷ next ∷ others)) same
              (omega (arith, at_least, less), (at_least, all))
        | inr (e, more) ↦
            let same : best_of entry_list best others ≡ best_of entry_list best (next ∷ others) =
              rw (e, best_of) refl in
            let (at_least, all) = best_of-IsGreatest entry_list best others in
            subst (IsGreatest entry_list (best ∷ next ∷ others)) same
              (at_least, (omega (arith, at_least, more), all))
      ]

  -- The kind of operations that the chart shows has the greatest total over the entries, of all kinds.
  pub precision_of-greatest :
      (entry_list : List (Entry Mean)) (precision : Precision)
      → total_flops precision entry_list ≤ total_flops (precision_of entry_list) entry_list
  unfolding precision_of
  precision_of-greatest entry_list in_fp16 =
      (best_of-IsGreatest entry_list in_fp16 (in_fp16_xmx ∷ in_bf16_xmx ∷ in_fp32 ∷ in_fp64 ∷ [])).0
  precision_of-greatest entry_list in_fp16_xmx =
      (best_of-IsGreatest entry_list in_fp16
        (in_fp16_xmx ∷ in_bf16_xmx ∷ in_fp32 ∷ in_fp64 ∷ [])).1.0
  precision_of-greatest entry_list in_bf16_xmx =
      (best_of-IsGreatest entry_list in_fp16
        (in_fp16_xmx ∷ in_bf16_xmx ∷ in_fp32 ∷ in_fp64 ∷ [])).1.1.0
  precision_of-greatest entry_list in_fp32 =
      (best_of-IsGreatest entry_list in_fp16
        (in_fp16_xmx ∷ in_bf16_xmx ∷ in_fp32 ∷ in_fp64 ∷ [])).1.1.1.0
  precision_of-greatest entry_list in_fp64 =
      (best_of-IsGreatest entry_list in_fp16
        (in_fp16_xmx ∷ in_bf16_xmx ∷ in_fp32 ∷ in_fp64 ∷ [])).1.1.1.1.0
