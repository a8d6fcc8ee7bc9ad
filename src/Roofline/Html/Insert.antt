-- ===== src/Roofline/Html/Insert.antt =====
-- Where `add_to_html` puts the points.
use pti_gpu_itt_only.Base.{
  ℕ, ◌+◌, ◌≡◌, ◌∙◌, refl, sym, ap, arith, List, [], ◌∷◌, ◌++◌, append_assoc, none, some, length,
  length-append, take, drop, take-append, drop-append,
}
use pti_gpu_itt_only.Text.{Text, codes, starts_with}
use pti_gpu_itt_only.Roofline.Lines.{join}
use pti_gpu_itt_only.Roofline.Html.{find, start_index, cut_at, add_to_html}

-- The first bracket behind a text without one.
find-bracket :
    (s rest : Text)
    → find s (codes "]") ≡ none
    → find (s ++ (codes "]" ++ rest)) (codes "]") ≡ some (length s)
unfolding find starts_with
find-bracket [] rest h = refl
find-bracket (c ∷ s) rest h = ground (arith, find-bracket s rest)

start_index-found :
    (html sep before : Text)
    → find html sep ≡ some (length before)
    → start_index html sep ≡ length (before ++ sep)
unfolding start_index
start_index-found html sep before h = rw (h, start_index) (sym (length-append before sep))

-- A text cut in front of the first bracket behind its beginning.
cut_at-bracket :
    (head b c : Text)
    → find b (codes "]") ≡ none
    → cut_at (head ++ (b ++ (codes "]" ++ c))) (length head) ≡ (head ++ b, codes "]" ++ c)
unfolding cut_at
cut_at-bracket head b c h =
    let rest : drop (length head) (head ++ (b ++ (codes "]" ++ c))) ≡ b ++ (codes "]" ++ c) =
      drop-append head (b ++ (codes "]" ++ c)) in
    let hit : find (drop (length head) (head ++ (b ++ (codes "]" ++ c)))) (codes "]")
        ≡ some (length b) =
      ap (λ s. find s (codes "]")) rest ∙ find-bracket b c h in
    let place : length head + length b ≡ length (head ++ b) = sym (length-append head b) in
    let whole : head ++ (b ++ (codes "]" ++ c)) ≡ (head ++ b) ++ (codes "]" ++ c) =
      sym (append_assoc head b (codes "]" ++ c)) in
    cut_found (head ++ (b ++ (codes "]" ++ c))) (length head) (length b) hit
    ∙ ap (λ n. (take n (head ++ (b ++ (codes "]" ++ c))), drop n (head ++ (b ++ (codes "]" ++ c)))))
        place
    ∙ ap (λ s. (take (length (head ++ b)) s, drop (length (head ++ b)) s)) whole
    ∙ pair_eq (take-append (head ++ b) (codes "]" ++ c)) (drop-append (head ++ b) (codes "]" ++ c))
  where
    cut_found :
        (s : Text) (start n : ℕ)
        → find (drop start s) (codes "]") ≡ some n
        → cut_at s start ≡ (take (start + n) s, drop (start + n) s)
    cut_found s start n e = rw (e, cut_at) refl

    pair_eq : {x x' y y' : Text} → x ≡ x' → y ≡ y' → Path (Text × Text) (x, y) (x', y')
    pair_eq e e' = cc (e, e')

-- Where the first mark of a page is followed, behind some text without a closing bracket, by one, the
-- points are put directly in front of that bracket, joined by commas, and nothing else is changed.
pub add_to_html-bracket :
    (a sep b c : Text) (data_to_add : List Text)
    → find ((a ++ sep) ++ (b ++ (codes "]" ++ c))) sep ≡ some (length a)
    → find b (codes "]") ≡ none
    → add_to_html ((a ++ sep) ++ (b ++ (codes "]" ++ c))) sep data_to_add
      ≡ ((a ++ sep) ++ b) ++ (join (codes ",\n\t\t") data_to_add ++ (codes "]" ++ c))
unfolding add_to_html
add_to_html-bracket a sep b c data_to_add first open_text =
    ap (λ (r : Text × Text). r.0 ++ (join (codes ",\n\t\t") data_to_add ++ r.1))
      (ap (cut_at ((a ++ sep) ++ (b ++ (codes "]" ++ c))))
          (start_index-found ((a ++ sep) ++ (b ++ (codes "]" ++ c))) sep a first)
        ∙ cut_at-bracket (a ++ sep) b c open_text)
