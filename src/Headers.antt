-- ===== src/Headers.antt =====
-- `tools/unitrace/scripts/get_itt.py`: the headers and the library of ITT, from a clone of its repository.
-- What a command does to the machine is a parameter. `none` is a failed assertion, or the error of copying
-- a file that is not there. The directory that a file is copied to is taken to be there.
pub mod Copied
mod Tests
use pti_gpu_itt_only.Base.{
  Bool, true, false, ◌||◌, List, [], ◌∷◌, ◌++◌, Option, none, some, if◌then◌else◌, ◌>>=◌,
}
use pti_gpu_itt_only.Text.{Text, codes, text_eq}

-- The contents of the files, by their paths.
abbrev pub Files : Type 0
Files = List (Text × Text)

unfoldable pub contents_of : Text → Files → Option Text
contents_of path [] = none
contents_of path ((other, contents) ∷ files) =
    if text_eq other path then some contents else contents_of path files

-- `os.remove( path )`
unfoldable pub remove_file : Text → Files → Files
remove_file path [] = []
remove_file path ((other, contents) ∷ files) =
    let rest = remove_file path files in
    if text_eq other path then rest else (other, contents) ∷ rest

-- `os.path.join( path, name )`
abbrev pub in_dir : Text → Text → Text
in_dir path name = path ++ (codes "/" ++ name)

-- `copy`
unfoldable pub copy : Text → Text → List Text → Files → Option Files
copy src_path dst_path [] files = some files
copy src_path dst_path (file ∷ file_list) files =
    let cleared = remove_file (in_dir dst_path file) files in
    elim (contents_of (in_dir src_path file) cleared) [
      | none ↦ none
      | some contents ↦
          copy src_path dst_path file_list ((in_dir dst_path file, contents) ∷ cleared)
    ]

-- The files, the directories and the commands that were run, each with its directory, the latest first.
pub record Machine : Type 0 where
  pub files : Files
  pub dirs : List Text
  pub commands : List (Text × Text)

abbrev pub is_dir : Text → List Text → Bool
is_dir path [] = false
is_dir path (dir ∷ dirs) = text_eq dir path || is_dir path dirs

-- `os.mkdir( path )`, unless the path exists.
unfoldable pub make_dir : Text → Machine → Machine
make_dir path m = if is_dir path m.dirs then m else record m { dirs = path ∷ m.dirs }

module _ (run : Text → Text → Machine → Machine) (is_windows : Bool) where
  -- A command in a directory.
  unfoldable pub run_in : Text → Text → Machine → Machine
  run_in dir command m =
      let after_run = run dir command m in
      record after_run { commands = (dir, command) ∷ after_run.commands }

  -- `clone`
  unfoldable pub clone : Text → Text → Machine → Machine
  clone commit clone_path m =
      if is_dir clone_path m.dirs
      then m
      else run_in clone_path (codes "git checkout " ++ commit) (
          run_in (codes ".") (codes "git clone https://github.com/intel/ittapi.git " ++ clone_path)
            m)

  -- `build`
  unfoldable pub build : Text → Machine → Option Machine
  build build_dir m =
      let itt_dir = build_dir ++ codes "/ittapi" in
      let cmake = if is_windows then codes "cmake -G \"NMake Makefiles\" ." else codes "cmake ." in
      let make = if is_windows then codes "nmake" else codes "make" in
      let library = if is_windows then codes "libittnotify.lib" else codes "libittnotify.a" in
      let built = run_in itt_dir make (run_in itt_dir cmake m) in
      elim (contents_of (in_dir itt_dir (codes "bin/" ++ library)) built.files) [
        | none ↦ none
        | some contents ↦ some (record built {
          files =
              (in_dir build_dir library, contents)
              ∷ remove_file (in_dir build_dir library) built.files;
        })
      ]

  abbrev pub itt_files : List Text
  itt_files =
      codes "disable_warnings.h"
      ∷ codes "ittnotify_config.h"
      ∷ codes "ittnotify_static.c"
      ∷ codes "ittnotify_static.h"
      ∷ codes "ittnotify_types.h"
      ∷ []

  -- `main`, with its three arguments.
  unfoldable pub get_itt : Text → Text → Text → Machine → Option Machine
  get_itt include_path build_path commit m = do
    let dst_path = in_dir include_path (codes "ittheaders")
    let clone_path = in_dir build_path (codes "ittapi")
    let cloned = clone commit clone_path (make_dir dst_path (make_dir include_path m))
    let include_src = in_dir clone_path (codes "include")
    sources ←
        copy (in_dir (in_dir clone_path (codes "src")) (codes "ittnotify")) dst_path itt_files
          cloned.files
    headers ← copy include_src dst_path (codes "ittnotify.h" ∷ []) sources
    let with_legacy = make_dir (in_dir dst_path (codes "legacy")) cloned
    legacy ←
        copy (in_dir include_src (codes "legacy")) (in_dir dst_path (codes "legacy"))
          (codes "ittnotify.h" ∷ []) headers
    build build_path (record with_legacy { files = legacy })
