-- ===== src/Requests/Tests.antt =====
-- Small requests, and the theorems at them.
use pti_gpu_itt_only.Base.{ℕ, ◌≡◌, refl, arith, Bool, false, List, [], ◌∷◌, ◌++◌, none, some}
use pti_gpu_itt_only.Text.{Text, codes, text_eq, split_on, strip, starts_with}
use pti_gpu_itt_only.Charts.Paging.{StallRow}
use pti_gpu_itt_only.Charts.Perf.Instance.{cleanse, cleanse_names, has_column, plot_instance}
use pti_gpu_itt_only.Requests.{
  answer_sections, answer_stalls, message, no_kernel, pdf, HttpArgs, of_instance, without_shape,
  do_get, invalid, nothing_collected, is_digits, strip_quotes, silent, Answer,
}
use pti_gpu_itt_only.Requests.Answers.{
  without_shape-append, answer_sections_first, Table, answer_table, answer_sections-plot_instance,
}

without_shape-append_example :
    (without_shape (codes "f[a]" ++ b'[' ∷ codes "SIMD32]") ≡ codes "f[a]")
    × (without_shape (codes "SIMD32]") ≡ codes "SIMD32]")
without_shape-append_example = without_shape-append (codes "f[a]") (codes "SIMD32]") (
  ground arith,
  (
    ground arith,
    (ground arith, (ground arith, (ground arith, (ground arith, (ground arith, tt))))),
  ),
)

abbrev stalled_in : Text → StallRow
stalled_in kernel = record {
  kernel = kernel;
  ip = codes "0x0";
  control = 0;
  pipe = 0;
  send = 0;
  dist = 0;
  sbid = 1;
  sync = 0;
  instr_fetch = 0;
  other = 0;
}

abbrev echoed : Text → List StallRow → Text
echoed kernel rows = kernel

answer_sections_first_example :
    answer_sections
      (answer_stalls echoed none false (codes "g"))
      ((stalled_in (codes "f") ∷ []) ∷ (stalled_in (codes "g") ∷ []) ∷ [])
    ≡ message (no_kernel (codes "g"))
answer_sections_first_example =
    answer_sections_first echoed false (codes "g") (stalled_in (codes "f") ∷ [])
      ((stalled_in (codes "g") ∷ []) ∷ []) (ground arith, tt)

abbrev one_metric : HttpArgs
one_metric = record { metrics = some (codes " A" ∷ []); throughput = none; ylabel = codes "y" ∷ [] }

-- The instance of a row is its cell.
abbrev same_instance : Text → Text → Bool
same_instance instance_id cells = text_eq instance_id cells

abbrev tables : List (Table Text)
tables =
    (codes "A" ∷ [], (some (codes "f"), codes "1") ∷ [])
    ∷ (codes "A" ∷ [], (some (codes "f"), codes "2") ∷ (none, codes "") ∷ [])
    ∷ []

answer_sections-plot_instance_example :
    answer_sections (answer_table same_instance one_metric (codes "2")) tables
    ≡ pdf (
        plot_instance
          ((codes "A" ∷ []) ∷ [])
          (codes "y" ∷ [])
          []
          (codes "f")
          ((some (codes "f"), codes "2") ∷ []))
unfolding of_instance text_eq cleanse cleanse_names has_column split_on strip
answer_sections-plot_instance_example =
    answer_sections-plot_instance same_instance one_metric (codes " A" ∷ []) (codes "2") (codes "f")
      (codes "2") [] ((codes "A" ∷ [], (some (codes "f"), codes "1") ∷ []) ∷ []) []
      (codes "A" ∷ [], (some (codes "f"), codes "2") ∷ (none, codes "") ∷ []) (codes "A" ∷ []) [] []
      (codes "y") [] refl refl (refl, tt) refl refl refl

abbrev silent_answer : Text → Text → ℕ → Answer Text
silent_answer kernel instance_id section = silent

unknown :
    do_get (λ path. path) false silent_answer (0 ∷ []) (codes "127.0.0.1") (codes "/f/1")
    ≡ nothing_collected
unfolding do_get split_on text_eq is_digits strip_quotes answer_sections starts_with
unknown = refl

not_a_number :
    do_get (λ path. path) false silent_answer (0 ∷ []) (codes "127.0.0.1") (codes "/f/x") ≡ invalid
unfolding do_get split_on text_eq is_digits strip_quotes starts_with
not_a_number = refl
