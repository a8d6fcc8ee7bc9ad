-- ===== src/Listing.antt =====
-- `List` of `tools/unitrace/scripts/metrics/analyzeperfmetrics.py`, lines 1208 to 1250: the metrics
-- and kernels of one device's table. A row of samples is as in `Charts.Perf`; of a row of stalls
-- only the kernel matters. What is printed are the names and numbers given here.
pub mod Counts
pub mod Whole
pub mod Kernels
mod Tests
use pti_gpu_itt_only.Base.{
  ℕ, ◌+◌, Bool, true, false, ◌||◌, List, [], ◌∷◌, ◌++◌, Option, none, some, if◌then◌else◌,
}
use pti_gpu_itt_only.Text.{Text, codes, text_eq}
use pti_gpu_itt_only.Charts.Perf.Instance.{PerfRow}

-- The columns of a table of samples, up to `StreamMarker`.
unfoldable pub sample_columns : List Text → List Text
sample_columns [] = []
sample_columns (m ∷ columns) =
    let rest = sample_columns columns in
    if text_eq m (codes "Kernel")
    then rest
    else if text_eq m (codes "StreamMarker")
    then m ∷ []
    else m ∷ rest

-- The columns of a table of stalls, up to `OtherStall[Events]`.
unfoldable pub stall_columns : List Text → List Text
stall_columns [] = []
stall_columns (m ∷ columns) =
    let rest = stall_columns columns in
    if text_eq m (codes "Kernel") || text_eq m (codes "IP[Address]")
    then rest
    else if text_eq m (codes "OtherStall[Events]")
    then m ∷ []
    else m ∷ rest

-- The dictionary `kernel_and_instances`, in the order of insertion.
abbrev pub Counts : Type 0
Counts = List (Text × ℕ)

unfoldable pub has_key : Text → Counts → Bool
has_key k [] = false
has_key k ((j, n) ∷ counts) = text_eq j k || has_key k counts

unfoldable pub add_one : Text → Counts → Counts
add_one k [] = []
add_one k ((j, n) ∷ counts) = if text_eq j k then (j, n + 1) ∷ counts else (j, n) ∷ add_one k counts

-- A blank row: the instance of the kernel, if there is one, is counted.
unfoldable pub note_ended : Text → Counts → Counts
note_ended kernel counts =
    if has_key kernel counts
    then add_one kernel counts
    else if text_eq kernel []
    then counts
    else counts ++ ((kernel, 1) ∷ [])

-- The loop over the rows of samples.
unfoldable pub count_instances {ℓ} :
    {Cells : Type ℓ} → List (PerfRow Cells) → Text → Counts → Counts
count_instances [] kernel counts = counts
count_instances ((none, cells) ∷ rows) kernel counts =
    count_instances rows [] (note_ended kernel counts)
count_instances ((some name, cells) ∷ rows) kernel counts =
    count_instances rows (if text_eq kernel [] then name else kernel) counts
