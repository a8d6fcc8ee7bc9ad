-- ===== src/Roofline/Report.antt =====
-- `class Roofline`, `read_unitrace_report` and the totals of `summary` and `plot_html_roofline`, of
-- `tools/unitrace/scripts/roofline/roofline_libs.py`. The tables are those of pandas, of which the
-- operations that the code calls are given; sums are natural numbers.
pub mod Entries
use pti_gpu_itt_only.Base.{
  ℕ, ◌+◌, ◌*◌, ltb, Bool, true, false, List, [], ◌∷◌, Option, none, some, if◌then◌else◌, ◌>>=◌,
}
use pti_gpu_itt_only.Text.{Text, codes}
use pti_gpu_itt_only.Roofline.Lines.{file_to_json}

-- What is called of pandas: the reader of a table, the kernels by their sums of `GpuTime[ns]`, the longest
-- first, the sum of those sums, whether a kernel is in the table, and the sum or the mean of a column over
-- a kernel's rows.
pub record Pandas (Frame Mean : Type 0) : Type 0 where
  pub read_csv : Text → Option Frame
  pub sorted_kernels : Frame → List Text
  pub total_gpu_time : Frame → ℕ
  pub has_kernel : Frame → Text → Bool
  pub sum_of : Frame → Text → Text → ℕ
  pub mean_of : Frame → Text → Text → Mean

-- `class Roofline`
pub record Entry (Mean : Type 0) : Type 0 where
  pub kernel_name : Text
  pub l3_read : ℕ
  pub l3_write : ℕ
  pub l3 : ℕ
  pub gpu_memory_read : ℕ
  pub gpu_memory_write : ℕ
  pub gpu_memory : ℕ
  pub fp64 : ℕ
  pub fp32 : ℕ
  pub fp16 : ℕ
  pub fp16_xmx : ℕ
  pub bf16_xmx : ℕ
  pub kernel_time : ℕ
  pub total_gpu_time : ℕ
  pub total_gpu_time_flops : ℕ
  pub average_core_freq : Mean
  pub xve_threads_occupancy : Mean
  pub fp16_xmx_utilization : Mean

module _ {Frame Mean : Type 0} (pd : Pandas Frame Mean) where
  -- The entry of a kernel: bytes of the memory profile, instructions of the compute profile, each counted
  -- as the operations that it does.
  unfoldable pub entry_of : Frame → Frame → Text → Entry Mean
  entry_of df df_flops kernel =
      let l3_byte_read = pd.sum_of df (codes "L3_BYTE_READ[bytes]") kernel in
      let l3_byte_write = pd.sum_of df (codes "L3_BYTE_WRITE[bytes]") kernel in
      let gpu_byte_read = pd.sum_of df (codes "GPU_MEMORY_BYTE_READ[bytes]") kernel in
      let gpu_byte_write = pd.sum_of df (codes "GPU_MEMORY_BYTE_WRITE[bytes]") kernel in
      record {
        kernel_name = kernel;
        l3_read = l3_byte_read;
        l3_write = l3_byte_write;
        l3 = l3_byte_write + l3_byte_read;
        gpu_memory_read = gpu_byte_read;
        gpu_memory_write = gpu_byte_write;
        gpu_memory = gpu_byte_read + gpu_byte_write;
        fp64 = pd.sum_of df_flops (codes "XVE_INST_EXECUTED_FP64[events]") kernel * 32;
        fp32 = pd.sum_of df_flops (codes "XVE_INST_EXECUTED_FP32[events]") kernel * 32;
        fp16 = pd.sum_of df_flops (codes "XVE_INST_EXECUTED_FP16[events]") kernel * 64;
        fp16_xmx = pd.sum_of df_flops (codes "XVE_INST_EXECUTED_XMX_FP16[events]") kernel * 512;
        bf16_xmx = pd.sum_of df_flops (codes "XVE_INST_EXECUTED_XMX_BF16[events]") kernel * 512;
        kernel_time = pd.sum_of df (codes "GpuTime[ns]") kernel;
        total_gpu_time = pd.total_gpu_time df;
        total_gpu_time_flops = pd.total_gpu_time df_flops;
        average_core_freq = pd.mean_of df (codes "AvgGpuCoreFrequencyMHz[MHz]") kernel;
        xve_threads_occupancy = pd.mean_of df (codes "XVE_THREADS_OCCUPANCY_ALL[%]") kernel;
        fp16_xmx_utilization =
            pd.mean_of df_flops (codes "XVE_INST_EXECUTED_XMX_FP16_UTILIZATION[%]") kernel;
      }

  -- The loop over the kernels of the memory profile.
  unfoldable pub entries_of : Frame → Frame → List Text → List (Entry Mean)
  entries_of df df_flops [] = []
  entries_of df df_flops (kernel ∷ kernels) =
      let rest = entries_of df df_flops kernels in
      if pd.has_kernel df_flops kernel then entry_of df df_flops kernel ∷ rest else rest

  -- `read_unitrace_report`, of the lines of both files; `none` is the error of a table that is not read.
  unfoldable pub read_unitrace_report : List Text → List Text → Option (List (Entry Mean))
  read_unitrace_report flops_lines bytes_lines = do
    df ← pd.read_csv (file_to_json bytes_lines)
    df_flops ← pd.read_csv (file_to_json flops_lines)
    some (entries_of df df_flops (pd.sorted_kernels df))

-- A kind of operations.
pub data Precision : Type 0 where
  in_fp16 : Precision
  in_fp16_xmx : Precision
  in_bf16_xmx : Precision
  in_fp32 : Precision
  in_fp64 : Precision

module _ {Mean : Type 0} where
  -- `getattr( entry, precision )`
  unfoldable pub flops_of : Precision → Entry Mean → ℕ
  flops_of in_fp16 entry = entry.fp16
  flops_of in_fp16_xmx entry = entry.fp16_xmx
  flops_of in_bf16_xmx entry = entry.bf16_xmx
  flops_of in_fp32 entry = entry.fp32
  flops_of in_fp64 entry = entry.fp64

  -- The totals that `summary` prints and `plot_html_roofline` compares.
  unfoldable pub total_flops : Precision → List (Entry Mean) → ℕ
  total_flops precision [] = 0
  total_flops precision (entry ∷ entry_list) =
      flops_of precision entry + total_flops precision entry_list

  -- The first of some kinds whose total is the greatest, behind one that is the best so far.
  unfoldable pub best_of : List (Entry Mean) → Precision → List Precision → Precision
  best_of entry_list best [] = best
  best_of entry_list best (next ∷ others) =
      let with_next = best_of entry_list next others in
      let with_best = best_of entry_list best others in
      if ltb (total_flops best entry_list) (total_flops next entry_list)
      then with_next
      else with_best

  -- `max( variable_dict, key=variable_dict.get )`
  unfoldable pub precision_of : List (Entry Mean) → Precision
  precision_of entry_list =
      best_of entry_list in_fp16 (in_fp16_xmx ∷ in_bf16_xmx ∷ in_fp32 ∷ in_fp64 ∷ [])
