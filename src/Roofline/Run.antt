-- ===== src/Roofline/Run.antt =====
-- `tools/unitrace/scripts/roofline/roofline.py`: running the tracer and the roofline of its profiles. What
-- the file system and the tracer give is a parameter; directories, and running commands, are values.
use pti_gpu_itt_only.Base.{
  Bool, true, false, ◌&&◌, ◌||◌, not, List, [], ◌∷◌, ◌++◌, Option, none, some, if◌then◌else◌,
}
use pti_gpu_itt_only.Text.{Text, codes, split_on}
use pti_gpu_itt_only.Roofline.Lines.{join}
use pti_gpu_itt_only.Roofline.Report.{Pandas, Entry, read_unitrace_report}

-- The arguments; `none` is one that is not given.
pub record RunArgs : Type 0 where
  pub compute : Option Text
  pub memory : Option Text
  pub app : Option Text
  pub unitrace : Option Text

-- An argument that is given and not empty.
abbrev pub is_given : Option Text → Bool
is_given none = false
is_given (some []) = false
is_given (some (c ∷ text)) = true

-- The check of `parse_arguments`.
unfoldable pub is_accepted : RunArgs → Bool
is_accepted args = is_given args.app || is_given args.compute && is_given args.memory

-- What the system is asked: whether a path is an executable file, where `unitrace` is in `PATH`, the
-- contents of the files that match a pattern after the commands were run, and the lines of a file.
pub record System : Type 0 where
  pub is_executable : Text → Bool
  pub which_unitrace : Option Text
  pub glob : List Text → Text → List Text
  pub read_lines : Text → List Text

-- `find_unitrace`; `none` is the error that it raises.
unfoldable pub find_unitrace : System → Option Text → Option Text
find_unitrace system none = system.which_unitrace
find_unitrace system (some []) = system.which_unitrace
find_unitrace system (some (c ∷ path)) =
    if system.is_executable (c ∷ path) then some (c ∷ path) else none

-- A command of `run_unitrace_commands`, its words joined by blanks.
unfoldable pub command : Text → Text → Text → Text → Text
command unitrace_path group output app = join (codes " ") (
    unitrace_path
    ∷ codes "--group"
    ∷ group
    ∷ codes "--demangle"
    ∷ codes "-q"
    ∷ codes "--chrome-kernel-logging"
    ∷ codes "-o"
    ∷ output
    ∷ app
    ∷ [])

unfoldable pub run_unitrace_commands : Text → Text → Text → List Text
run_unitrace_commands app output_dir unitrace_path =
    command unitrace_path (codes "ComputeBasic") (output_dir ++ codes "/_IntelGPUBasic") app
    ∷ command unitrace_path (codes "VectorEngine138") (output_dir ++ codes "/_IntelGPUCompute") app
    ∷ []

-- `merge_metrics_files`: what is written, the contents of each file and a line feed.
unfoldable pub merge_metrics_files : List Text → Text
merge_metrics_files [] = []
merge_metrics_files (contents ∷ files) = contents ++ (codes "\n" ++ merge_metrics_files files)

-- The lines of a text, at its line feeds; the empty one behind the last line feed does no harm.
abbrev pub lines_of : Text → List Text
lines_of text = split_on 0 (codes "\n") text

-- How `main` ends.
pub data RunEnd (Mean : Type 0) : Type 0 where
  refused : RunEnd Mean
  no_unitrace : RunEnd Mean
  processed : List Text → Option (List (Entry Mean)) → RunEnd Mean

module _ {Frame Mean : Type 0} (pd : Pandas Frame Mean) (system : System) (output_dir : Text) where
  -- `main`, up to what is printed and plotted: the commands that were run, and the entries.
  unfoldable pub main : RunArgs → RunEnd Mean
  main args = if not (is_accepted args) then refused else elim (is_given args.app) [
    | true ↦ elim args.app [
      | none ↦ refused
      | some app ↦ elim (find_unitrace system args.unitrace) [
        | none ↦ no_unitrace
        | some unitrace_path ↦
            let commands = run_unitrace_commands app output_dir unitrace_path in
            let flops =
              merge_metrics_files
                (system.glob commands (output_dir ++ codes "/*_IntelGPUCompute.metrics*")) in
            let bytes =
              merge_metrics_files
                (system.glob commands (output_dir ++ codes "/*_IntelGPUBasic.metrics*")) in
            processed commands (read_unitrace_report pd (lines_of flops) (lines_of bytes))
      ]
    ]
    | false ↦ elim args.compute [
      | none ↦ refused
      | some compute ↦ elim args.memory [
        | none ↦ refused
        | some memory ↦
            processed []
              (read_unitrace_report pd (system.read_lines compute) (system.read_lines memory))
      ]
    ]
  ]
