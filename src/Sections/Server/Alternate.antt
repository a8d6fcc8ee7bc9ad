-- ===== src/Sections/Server/Alternate.antt =====
-- Which sections the server keeps of a file that holds several devices.
use pti_gpu_itt_only.Base.{
  ℕ, true, not, List, [], ◌∷◌, ◌++◌, ◌≡◌, ◌≢◌, ◌≤◌, ◌<◌, refl, arith, if◌then◌else◌, All, ◌∙◌,
  append_assoc,
}
use pti_gpu_itt_only.Text.{Text}
use pti_gpu_itt_only.Sections.{is_banner, is_header, is_stall_header}
use pti_gpu_itt_only.Sections.Server.{
  Span, ServerScan, note_banner, note_header, server_rows, server_start, server_sections, Section,
  IsSection, section_rows, file_rows, header_line, end_line, spans, alternate, server-quiet,
  server_banner, server_header,
}

abbrev pass : Section → ServerScan → ServerScan
pass sec s = record {
  header = header_line s.linenum sec;
  linenum = end_line s.linenum sec;
  devicefound = not s.devicefound;
  eustall = if is_stall_header sec.header then true else s.eustall;
  sections = if s.devicefound then s.sections ++ ((s.header, s.linenum) ∷ []) else s.sections;
}

note_banner_lem :
    (row : Text) (s : ServerScan)
    → is_banner row ≡ true
    → note_banner row s ≡ record s {
      devicefound = not s.devicefound;
      sections = if s.devicefound then s.sections ++ ((s.header, s.linenum) ∷ []) else s.sections;
    }
unfolding note_banner
note_banner_lem row s b = ground arith

note_header_lem :
    (row : Text) (s : ServerScan)
    → is_header row ≡ true
    → note_header row s
      ≡ record s { header = s.linenum; eustall = if is_stall_header row then true else s.eustall }
unfolding note_header
note_header_lem row s b = ground arith

server-section_rows :
    (sec : Section) (rest : List Text) (s : ServerScan)
    → IsSection sec
    → server_rows (section_rows sec ++ rest) s ≡ server_rows rest (pass sec s)
server-section_rows sec rest s h = rw (append_assoc sec.gap (sec.header ∷ sec.body) rest) (
    server_banner sec.banner _ s h.banner_row h.banner_only
    ∙ rw (note_banner_lem sec.banner s h.banner_row) (
        server-quiet sec.gap _ _ h.gap_rows
        ∙ server_header sec.header _ _ h.header_only h.header_row
        ∙ rw (note_header_lem sec.header _ h.header_row)
            (server-quiet sec.body rest _ h.body_rows)))

abbrev finish : ServerScan → List Span
finish s = s.sections ++ ((s.header, s.linenum) ∷ [])

finish-nil : (s : ServerScan) → finish (server_rows [] s) ≡ finish s
unfolding server_rows
finish-nil s = refl

file_one :
    (b : Section) (s : ServerScan)
    → IsSection b
    → server_rows (file_rows (b ∷ [])) s ≡ server_rows [] (pass b s)
file_one b s h = server-section_rows b [] s h

served :
    (secs : List Section) (s : ServerScan)
    → s.devicefound ≡ true
    → All IsSection secs
    → finish (server_rows (file_rows secs) s)
      ≡ s.sections ++ alternate ((s.header, s.linenum) ∷ spans s.linenum secs)
served [] s f h = finish-nil s
served (b ∷ []) s f (hb, _) =
    rw (file_one b s hb, f) (finish-nil _ ∙ append_assoc s.sections (_ ∷ []) (_ ∷ []))
served (b ∷ c ∷ secs) s f (hb, (hc, hs)) = rw (server-section_rows b (file_rows (c ∷ secs)) s hb) (
    rw (server-section_rows c (file_rows secs) (pass b s) hc)
      (served secs (pass c (pass b s)) (rw f) hs ∙ rw f (append_assoc s.sections (_ ∷ []) _)))

-- For a metric file made of the sections of one or more devices, each a banner, its header and its
-- data, the server keeps the first section, the third and so on, and the last one: it drops the
-- second, the fourth and so on, unless it is the last.
pub server_sections-alternate :
    (sec : Section) (secs : List Section)
    → IsSection sec
    → All IsSection secs
    → server_sections (file_rows (sec ∷ secs)) ≡ alternate (spans 0 (sec ∷ secs))
server_sections-alternate sec secs h hs =
    unfolded (file_rows (sec ∷ secs))
    ∙ rw (server-section_rows sec (file_rows secs) server_start h)
        (served secs (pass sec server_start) refl hs)
  where
    unfolded : (rows : List Text) → server_sections rows ≡ finish (server_rows rows server_start)
    unfolded rows = unfold server_sections in refl

abbrev StartsAfter : ℕ → Span → Type 0
StartsAfter n span = n < span.0

spans-StartsAfter : (secs : List Section) (m n : ℕ) → m ≤ n → All (StartsAfter m) (spans n secs)
spans-StartsAfter [] m n h = tt
spans-StartsAfter (sec ∷ secs) m n h =
    (omega arith, spans-StartsAfter secs m (end_line n sec) (omega arith))

alternate-StartsAfter :
    (m : ℕ) (ps : List Span) → All (StartsAfter m) ps → All (StartsAfter m) (alternate ps)
alternate-StartsAfter m [] h = tt
alternate-StartsAfter m (a ∷ []) h = h
alternate-StartsAfter m (a ∷ b ∷ []) h = h
alternate-StartsAfter m (a ∷ b ∷ c ∷ ps) (ha, (hb, h)) = (ha, alternate-StartsAfter m (c ∷ ps) h)

StartsAfter-ne : (m : ℕ) (ps : List Span) → All (StartsAfter m) ps → All (λ p. p.0 ≢ m) ps
StartsAfter-ne m [] h = tt
StartsAfter-ne m (p ∷ ps) (h, hs) = (omega arith, StartsAfter-ne m ps hs)

alternate-ne : (m : ℕ) (ps : List Span) → All (StartsAfter m) ps → All (λ p. p.0 ≢ m) (alternate ps)
alternate-ne m ps h = StartsAfter-ne m (alternate ps) (alternate-StartsAfter m ps h)

-- Of three or more devices the second is never served: no section that the server keeps begins at
-- the header of the second device.
pub server_sections-second_lost :
    (a b c : Section) (secs : List Section)
    → IsSection a
    → IsSection b
    → IsSection c
    → All IsSection secs
    → All (λ p. p.0 ≢ header_line (end_line 0 a) b) (server_sections (file_rows (a ∷ b ∷ c ∷ secs)))
server_sections-second_lost a b c secs ha hb hc hs =
    let second : ℕ = header_line (end_line 0 a) b in
    let end : ℕ = end_line (end_line 0 a) b in
    rw (server_sections-alternate a (b ∷ c ∷ secs) ha (hb, (hc, hs))) (
      omega arith,
      alternate-ne second (spans end (c ∷ secs))
          (spans-StartsAfter (c ∷ secs) second end (omega arith)),
    )
