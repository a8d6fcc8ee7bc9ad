-- ===== src/Sections/Tests.antt =====
-- Runs of the scans on small files, and the theorems at such files.
use pti_gpu_itt_only.Base.{true, false, [], ◌∷◌, ◌++◌, ◌≡◌, ◌≢◌, refl, All}
use pti_gpu_itt_only.Text.{Text, codes, contains}
use pti_gpu_itt_only.Sections.{is_banner, is_header, is_stall_header, find_section}
use pti_gpu_itt_only.Sections.Device.{find_section_lem}
use pti_gpu_itt_only.Sections.Server.{Section, IsSection, file_rows, server_sections}
use pti_gpu_itt_only.Sections.Server.Alternate.{
  server_sections-alternate, server_sections-second_lost,
}

abbrev device0 : Text
device0 = codes "=== Device #0 Metrics ==="

abbrev device1 : Text
device1 = codes "=== Device #1 Metrics ==="

abbrev perf_header : Text
perf_header = codes "Kernel, GpuTime[ns]"

abbrev stall_header : Text
stall_header = codes "Kernel, IP[Address], OtherStall[Events]"

abbrev row1 : Text
row1 = codes "gemm, 10"

find_section_lem_example :
    find_section device1 (
      (device0 ∷ perf_header ∷ row1 ∷ [])
      ++ (device1 ∷ ([] ++ (stall_header ∷ ((row1 ∷ []) ++ (device0 ∷ []))))))
    ≡ record { header = 4; linenum = 6; counting = false; devicefound = true; eustall = true }
unfolding is_banner is_header is_stall_header contains
find_section_lem_example =
    find_section_lem device1 device1 stall_header (device0 ∷ perf_header ∷ row1 ∷ []) [] (row1 ∷ [])
      (device0 ∷ []) (refl, (refl, (refl, tt))) refl refl refl tt refl refl (refl, tt) (refl, refl)

abbrev section0 : Section
section0 = record { banner = device0; gap = []; header = perf_header; body = row1 ∷ [] }

abbrev section1 : Section
section1 = record { banner = device1; gap = []; header = perf_header; body = row1 ∷ row1 ∷ [] }

section0-IsSection : IsSection section0
unfolding is_banner is_header
section0-IsSection = record {
  banner_row = refl;
  banner_only = refl;
  gap_rows = tt;
  header_row = refl;
  header_only = refl;
  body_rows = ((refl, refl), tt);
}

section1-IsSection : IsSection section1
unfolding is_banner is_header
section1-IsSection = record {
  banner_row = refl;
  banner_only = refl;
  gap_rows = tt;
  header_row = refl;
  header_only = refl;
  body_rows = ((refl, refl), ((refl, refl), tt));
}

server_sections-alternate_example :
    server_sections (file_rows (section0 ∷ section1 ∷ section0 ∷ [])) ≡ (1, 3) ∷ (8, 10) ∷ []
server_sections-alternate_example =
    server_sections-alternate section0 (section1 ∷ section0 ∷ []) section0-IsSection
      (section1-IsSection, (section0-IsSection, tt))

server_sections-second_lost_example :
    All (λ p. p.0 ≢ 4) (server_sections (file_rows (section0 ∷ section1 ∷ section0 ∷ [])))
server_sections-second_lost_example =
    server_sections-second_lost section0 section1 section0 [] section0-IsSection section1-IsSection
      section0-IsSection tt
