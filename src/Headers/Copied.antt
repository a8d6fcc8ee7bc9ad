-- ===== src/Headers/Copied.antt =====
-- The files behind a call of `copy`.
use pti_gpu_itt_only.Base.{
  ◌≡◌, ◌∙◌, refl, sym, ap, arith, Bool, true, false, ◌||◌, List, [], ◌∷◌, ◌++◌, none, some,
  if◌then◌else◌, All, Option-cases, Bool-cases, inl, inr,
}
use pti_gpu_itt_only.Text.{Text, codes, text_eq, text_eq_iff}
use pti_gpu_itt_only.Headers.{Files, contents_of, remove_file, in_dir, copy}

contents_of-remove_file :
    (path other : Text) (files : Files)
    → contents_of path (remove_file other files)
      ≡ (if text_eq other path then none else contents_of path files)
unfolding contents_of remove_file
contents_of-remove_file path other [] = ground arith
contents_of-remove_file path other ((p, contents) ∷ files) = ground (
  arith,
  text_eq_iff p other,
  text_eq_iff p path,
  text_eq_iff other path,
  contents_of-remove_file path other files,
)

module _ (src_path dst_path : Text) where
  -- Whether a path is that of a listed file's copy.
  abbrev pub is_copy : Text → List Text → Bool
  is_copy path [] = false
  is_copy path (file ∷ file_list) = text_eq (in_dir dst_path file) path || is_copy path file_list

abbrev pub is_named : Text → List Text → Bool
is_named file [] = false
is_named file (other ∷ file_list) = text_eq other file || is_named file file_list

text_eq-append : (p a b : Text) → text_eq (p ++ a) (p ++ b) ≡ text_eq a b
unfolding text_eq
text_eq-append [] a b = refl
text_eq-append (c ∷ p) a b = ground (arith, text_eq-append p a b)

text_eq-in_dir : (dir a b : Text) → text_eq (in_dir dir a) (in_dir dir b) ≡ text_eq a b
text_eq-in_dir dir a b =
    text_eq-append dir (codes "/" ++ a) (codes "/" ++ b) ∙ text_eq-append (codes "/") a b

module _ (src_path dst_path : Text) where
  is_copy-in_dir :
      (file : Text) (file_list : List Text)
      → is_copy src_path dst_path (in_dir dst_path file) file_list ≡ is_named file file_list
  is_copy-in_dir file [] = refl
  is_copy-in_dir file (other ∷ file_list) =
      ground (arith, text_eq-in_dir dst_path other file, is_copy-in_dir file file_list)

  -- What one round puts in the place of the copy.
  abbrev one_copied : Text → Text → Files → Files
  one_copied file contents files =
      (in_dir dst_path file, contents) ∷ remove_file (in_dir dst_path file) files

  contents_of-one_copied :
      (path file contents : Text) (files : Files)
      → contents_of path (one_copied file contents files)
        ≡ (if text_eq (in_dir dst_path file) path then some contents else contents_of path files)
  unfolding contents_of
  contents_of-one_copied path file contents files =
      ground (arith, contents_of-remove_file path (in_dir dst_path file) files)

  -- A path that no listed file is copied to.
  copy-other :
      (path : Text) (file_list : List Text) (files files' : Files)
      → copy src_path dst_path file_list files ≡ some files'
      → is_copy src_path dst_path path file_list ≡ false
      → contents_of path files' ≡ contents_of path files
  unfolding copy
  copy-other path [] files files' h none_to =
      ap (contents_of path) (let same : files' ≡ files = cc h in same)
  copy-other path (file ∷ file_list) files files' h none_to =
      elim (Option-cases
        (contents_of (in_dir src_path file) (remove_file (in_dir dst_path file) files))) [
          | inl e ↦ absurd (ground arith)
          | inr (contents, e) ↦
              let apart : text_eq (in_dir dst_path file) path ≡ false = ground arith in
              copy-other path file_list (one_copied file contents files) files' (rw (e, copy) at h)
                (ground arith)
              ∙ contents_of-one_copied path file contents files
              ∙ rw apart refl
        ]

  source_stays :
      (file g contents : Text) (files : Files)
      → text_eq (in_dir dst_path file) (in_dir src_path g) ≡ false
      → contents_of (in_dir src_path g) (one_copied file contents files)
        ≡ contents_of (in_dir src_path g) files
  source_stays file g contents files apart =
      contents_of-one_copied (in_dir src_path g) file contents files ∙ rw apart refl

  -- Where no listed file's copy has the path of the original of a given listed file, `copy` leaves, at the
  -- path of the given file's copy, the contents that its original had before, if no listed file is missing.
  pub contents_of-copy :
      (file : Text) (file_list : List Text) (files files' : Files)
      → All (λ f. text_eq (in_dir dst_path f) (in_dir src_path file) ≡ false) file_list
      → copy src_path dst_path file_list files ≡ some files'
      → is_named file file_list ≡ true
      → contents_of (in_dir dst_path file) files' ≡ contents_of (in_dir src_path file) files
  unfolding copy
  contents_of-copy file [] files files' aparts h named = absurd (ground arith)
  contents_of-copy file (first ∷ file_list) files files' (apart, aparts) h named =
      let cleared = remove_file (in_dir dst_path first) files in
      elim (Option-cases (contents_of (in_dir src_path first) cleared)) [
        | inl e ↦ absurd (ground (arith, rw (e, copy) at h))
        | inr (contents, e) ↦
            let rest : copy src_path dst_path file_list (one_copied first contents files)
                ≡ some files' =
              rw (e, copy) at h in
            elim (Bool-cases (is_named file file_list)) [
              | inl again ↦
                  contents_of-copy file file_list (one_copied first contents files) files' aparts
                    rest again
                  ∙ source_stays first file contents files apart
              | inr last ↦
                  let hit : text_eq first file ≡ true = ground arith in
                  let same : first ≡ file = (text_eq_iff first file).0 hit in
                  let kept : text_eq (in_dir dst_path first) (in_dir src_path first) ≡ false =
                    ap (λ f. text_eq (in_dir dst_path first) (in_dir src_path f)) same ∙ apart in
                  copy-other (in_dir dst_path file) file_list (one_copied first contents files)
                    files' rest (is_copy-in_dir file file_list ∙ last)
                  ∙ contents_of-one_copied (in_dir dst_path file) first contents files
                  ∙ rw (text_eq-in_dir dst_path first file ∙ hit) (
                      sym e
                      ∙ contents_of-remove_file (in_dir src_path first) (in_dir dst_path first)
                          files
                      ∙ rw kept (ap (λ f. contents_of (in_dir src_path f) files) same))
            ]
      ]
