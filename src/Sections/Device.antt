-- ===== src/Sections/Device.antt =====
-- The section that the scan of `main` and `List` finds.
use pti_gpu_itt_only.Base.{
  ◌+◌, true, false, ◌&&◌, List, [], ◌∷◌, ◌++◌, ◌≡◌, refl, arith, if◌then◌else◌, length, All, ◌∙◌,
}
use pti_gpu_itt_only.Text.{Text, contains}
use pti_gpu_itt_only.Sections.{
  is_banner, is_header, is_stall_header, Scan, tick, scan_rows, start, find_section,
}

-- No line of another device's section opens the section looked for.
abbrev pub IsOther : Text → Text → Type 0
IsOther device_banner row = (is_banner row && contains row device_banner) ≡ false

abbrev pub IsPlain : Text → Type 0
IsPlain row = is_banner row ≡ false

-- What lies between a banner and its header.
abbrev pub IsGap : Text → Type 0
IsGap row = (is_banner row ≡ false) × (is_header row ≡ false)

-- Nothing, or the banner of another device and whatever follows it.
abbrev pub EndsSection : Text → List Text → Type 0
EndsSection device_banner [] = Unit {0}
EndsSection device_banner (row ∷ rows) =
    (is_banner row ≡ true) × (contains row device_banner ≡ false)

module _ (device_banner : Text) where
  scan-others :
      (rows rest : List Text) (s : Scan)
      → s.devicefound ≡ false
      → s.counting ≡ false
      → All (IsOther device_banner) rows
      → scan_rows device_banner (rows ++ rest) s
        ≡ scan_rows device_banner rest (record s { linenum = s.linenum + length rows })
  unfolding scan_rows
  scan-others [] rest s f c h = ground arith
  scan-others (row ∷ rows) rest s f c (h, hs) =
      ground (arith, scan-others rows rest (tick s) f c hs)

  scan-gap :
      (rows rest : List Text) (s : Scan)
      → All IsGap rows
      → scan_rows device_banner (rows ++ rest) s
        ≡ scan_rows device_banner rest (record s { linenum = s.linenum + length rows })
  unfolding scan_rows
  scan-gap [] rest s h = ground arith
  scan-gap (row ∷ rows) rest s (h, hs) = ground (arith, scan-gap rows rest (tick s) hs)

  scan-body :
      (rows rest : List Text) (s : Scan)
      → s.counting ≡ false
      → All IsPlain rows
      → scan_rows device_banner (rows ++ rest) s
        ≡ scan_rows device_banner rest (record s { linenum = s.linenum + length rows })
  unfolding scan_rows
  scan-body [] rest s c h = ground arith
  scan-body (row ∷ rows) rest s c (h, hs) = ground (arith, scan-body rows rest (tick s) c hs)

  scan-end :
      (rows : List Text) (s : Scan)
      → s.devicefound ≡ true
      → EndsSection device_banner rows
      → scan_rows device_banner rows s ≡ s
  unfolding scan_rows
  scan-end [] s f e = refl
  scan-end (row ∷ rows) s f e = ground arith

  scan_banner :
      (row : Text) (rest : List Text) (s : Scan)
      → is_banner row ≡ true
      → contains row device_banner ≡ true
      → is_header row ≡ false
      → scan_rows device_banner (row ∷ rest) s
        ≡ scan_rows device_banner rest (tick (record s { counting = true; devicefound = true }))
  unfolding scan_rows
  scan_banner row rest s b c h = ground arith

  scan_header :
      (row : Text) (rest : List Text) (s : Scan)
      → s.counting ≡ true
      → is_banner row ≡ false
      → is_header row ≡ true
      → scan_rows device_banner (row ∷ rest) s
        ≡ scan_rows device_banner rest (record s {
          header = s.linenum;
          linenum = s.linenum + 1;
          counting = false;
          eustall = if is_stall_header row then true else s.eustall;
        })
  unfolding scan_rows
  scan_header row rest s c b h = ground arith

  scan_section :
      (banner header : Text) (others gap body rest : List Text)
      → All (IsOther device_banner) others
      → is_banner banner ≡ true
      → contains banner device_banner ≡ true
      → is_header banner ≡ false
      → All IsGap gap
      → is_banner header ≡ false
      → is_header header ≡ true
      → All IsPlain body
      → EndsSection device_banner rest
      → scan_rows device_banner (others ++ (banner ∷ (gap ++ (header ∷ (body ++ rest))))) start
        ≡ record {
          header = 0 + length others + 1 + length gap;
          linenum = 0 + length others + 1 + length gap + 1 + length body;
          counting = false;
          devicefound = true;
          eustall = if is_stall_header header then true else false;
        }
  scan_section banner header others gap body rest ho b c nb hg hb hh hp e =
      scan-others others _ start refl refl ho
      ∙ scan_banner banner _ _ b c nb
      ∙ scan-gap gap _ _ hg
      ∙ scan_header header _ _ refl hb hh
      ∙ scan-body body rest _ refl hp
      ∙ scan-end rest _ refl e

-- For a file that holds other devices' lines, the device's banner, some lines that are neither a
-- banner nor a header, a header, and lines up to the end of the file or the next device's banner,
-- the scan finds the device, the line number of that header, the number of the line behind the
-- section, and whether the header is one of stall sampling. Lines in the section that look like
-- a second header do not count.
pub find_section_lem :
    (device_banner banner header : Text) (others gap body rest : List Text)
    → All (IsOther device_banner) others
    → is_banner banner ≡ true
    → contains banner device_banner ≡ true
    → is_header banner ≡ false
    → All IsGap gap
    → is_banner header ≡ false
    → is_header header ≡ true
    → All IsPlain body
    → EndsSection device_banner rest
    → find_section device_banner (others ++ (banner ∷ (gap ++ (header ∷ (body ++ rest)))))
      ≡ record {
        header = length others + 1 + length gap;
        linenum = length others + 1 + length gap + 1 + length body;
        counting = false;
        devicefound = true;
        eustall = is_stall_header header;
      }
unfolding find_section
find_section_lem device_banner banner header others gap body rest ho b c nb hg hb hh hp e =
    scan_section device_banner banner header others gap body rest ho b c nb hg hb hh hp e
    ∙ ground arith
