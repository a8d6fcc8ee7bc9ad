-- ===== src/Headers/Tests.antt =====
-- A small directory, and the theorem at it.
use pti_gpu_itt_only.Base.{◌≡◌, refl, [], ◌∷◌, none, some, false}
use pti_gpu_itt_only.Text.{codes, text_eq}
use pti_gpu_itt_only.Headers.{
  Files, contents_of, remove_file, in_dir, copy, make_dir, run_in, clone, get_itt,
}
use pti_gpu_itt_only.Headers.Copied.{contents_of-copy}

abbrev two_files : Files
two_files =
    (codes "src/a.h", codes "new a")
    ∷ (codes "src/b.h", codes "new b")
    ∷ (codes "dst/b.h", codes "old b")
    ∷ []

abbrev two_copied : Files
two_copied =
    (codes "dst/b.h", codes "new b")
    ∷ (codes "dst/a.h", codes "new a")
    ∷ (codes "src/a.h", codes "new a")
    ∷ (codes "src/b.h", codes "new b")
    ∷ []

two_are_copied :
    copy (codes "src") (codes "dst") (codes "a.h" ∷ codes "b.h" ∷ []) two_files ≡ some two_copied
unfolding copy contents_of remove_file text_eq
two_are_copied = refl

contents_of-copy_example :
    contents_of (in_dir (codes "dst") (codes "b.h")) two_copied
    ≡ contents_of (in_dir (codes "src") (codes "b.h")) two_files
unfolding text_eq
contents_of-copy_example =
    contents_of-copy (codes "src") (codes "dst") (codes "b.h") (codes "a.h" ∷ codes "b.h" ∷ [])
      two_files two_copied (refl, (refl, tt)) two_are_copied refl

-- A clone without the header files.
no_headers :
    get_itt
      (λ dir command m. m)
      false
      (codes "inc")
      (codes "b")
      (codes "abc")
      (record { files = []; dirs = []; commands = [] })
    ≡ none
unfolding get_itt clone make_dir run_in copy contents_of remove_file text_eq
no_headers = refl
