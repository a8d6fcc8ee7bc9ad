-- ===== src/Command/Laws.antt =====
-- What `main` requires of its arguments.
use pti_gpu_itt_only.Base.{ℕ, true, false, List, none, some, length, ◌≡◌, ◌≢◌, arith}
use pti_gpu_itt_only.Text.{Text}
use pti_gpu_itt_only.Sections.{Scan, find_section}
use pti_gpu_itt_only.Command.{
  MainArgs, analyze_perf, no_ylabel, counts_differ, metric_ylabel_match, start_perf, after_scan,
  analyze_file, read_file, main, device_banner,
}

start_perf-matched :
    (args : MainArgs) (s : Scan)
    → metric_ylabel_match args.metrics args.ylabel ≡ true
    → (start_perf args s ≢ no_ylabel) × (start_perf args s ≢ counts_differ)
unfolding start_perf metric_ylabel_match
start_perf-matched args s h = ground arith

after_scan-matched :
    (args : MainArgs) (s : Scan)
    → metric_ylabel_match args.metrics args.ylabel ≡ true
    → (after_scan args s ≢ no_ylabel) × (after_scan args s ≢ counts_differ)
unfolding after_scan
after_scan-matched args s h = ground (arith, start_perf-matched args s h)

read_file-matched :
    (args : MainArgs) (rows : List Text)
    → (read_file args rows ≢ no_ylabel) × (read_file args rows ≢ counts_differ)
unfolding read_file analyze_file
read_file-matched args rows =
    ground (arith, after_scan-matched args (find_section (device_banner args.device) rows))

-- The messages that the option for the labels is missing, and that the numbers of both options
-- differ, are never shown: the first comparison of the two options has stopped the command before.
pub main-matched : (args : MainArgs) → (main args ≢ no_ylabel) × (main args ≢ counts_differ)
unfolding main
main-matched args = grind (arith, read_file-matched args)

-- What holds where performance metrics are analysed: the section found is between `header` and
-- `last`.
pub record Analyses (args : MainArgs) (header last : ℕ) (metrics labels : List Text) : Type 0 where
  pub as_many : length metrics ≡ length labels
  pub metrics_given : args.metrics ≡ some metrics
  pub labels_given : args.ylabel ≡ some labels
  pub not_listed : args.list ≡ false
  pub not_served : (args.http ≡ false) × (args.https ≡ false)
  pub stored : args.output ≢ none
  pub found :
      (rows : List Text)
      → args.input ≡ some rows
      → (header ≡ (find_section (device_banner args.device) rows).header)
        × (last ≡ (find_section (device_banner args.device) rows).linenum)
        × ((find_section (device_banner args.device) rows).devicefound ≡ true)
        × ((find_section (device_banner args.device) rows).eustall ≡ false)

-- Where the command goes on to analyse performance metrics, it was not asked to list them or to
-- serve requests, an output file is given, there is one label for each set of metrics, and the rows
-- analysed are those of the section that the scan finds for the device, which is there and is not
-- of stall sampling.
pub main-Analyses :
    (args : MainArgs) (header last : ℕ) (metrics labels : List Text)
    → main args ≡ analyze_perf header last metrics labels
    → Analyses args header last metrics labels
unfolding main read_file analyze_file after_scan start_perf
main-Analyses args header last metrics labels h = record {
  as_many = ground arith;
  metrics_given = ground arith;
  labels_given = ground arith;
  not_listed = ground arith;
  not_served = ground arith;
  stored = ground arith;
  found = λ rows e. ground arith;
}
