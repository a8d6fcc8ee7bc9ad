-- ===== src/Command/Tests.antt =====
-- A run of the command, and the theorems at it.
use pti_gpu_itt_only.Base.{[], ◌∷◌, refl, some, false}
use pti_gpu_itt_only.Text.{codes, contains, starts_with}
use pti_gpu_itt_only.Sections.{find_section, is_banner, is_header, is_stall_header}
use pti_gpu_itt_only.Command.{
  MainArgs, main, read_file, metric_ylabel_match, analyze_file, after_scan, start_perf,
  device_banner,
}
use pti_gpu_itt_only.Command.Laws.{Analyses, main-Analyses}

abbrev perf_args : MainArgs
perf_args = record {
  input =
      some
        (codes "=== Device #0 Metrics ===" ∷ codes "Kernel, GpuTime[ns]" ∷ codes "gemm, 10" ∷ []);
  list = false;
  metrics = some (codes "GpuTime[ns]" ∷ []);
  ylabel = some (codes "ns" ∷ []);
  http = false;
  https = false;
  output = some (codes "perf.pdf");
  device = codes "0";
}

main-Analyses_example : Analyses perf_args 1 3 (codes "GpuTime[ns]" ∷ []) (codes "ns" ∷ [])
unfolding main read_file metric_ylabel_match analyze_file after_scan start_perf device_banner
    find_section is_banner is_header is_stall_header contains starts_with
main-Analyses_example =
    main-Analyses perf_args 1 3 (codes "GpuTime[ns]" ∷ []) (codes "ns" ∷ []) refl
