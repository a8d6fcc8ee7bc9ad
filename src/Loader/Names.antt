-- ===== src/Loader/Names.antt =====
-- The lines of the headers that name functions.
use pti_gpu_itt_only.Base.{
  ◌≡◌, ◌∙◌, refl, sym, ap, Bool, true, false, ◌&&◌, not, List, [], ◌∷◌, ◌++◌, append_assoc,
  append-nil, Option, none, some, if◌then◌else◌, Option-cases, Bool-cases, inl, inr,
}
use pti_gpu_itt_only.Text.{Text, codes, contains, starts_with}
use pti_gpu_itt_only.Loader.{api_name, get_api_func_list}

-- The names of all the lines, if each has one.
abbrev pub all_names : List Text → Option (List Text)
all_names [] = some []
all_names (line ∷ lines) = elim (api_name line) [
  | none ↦ none
  | some name ↦ elim (all_names lines) [ none ↦ none | some names ↦ some (name ∷ names) ]
]

abbrev pub is_api : Text → Bool
is_api line = contains line (codes "ZE_APICALL")

-- The lines directly behind a `ZE_APICALL` that are none themselves; the first line is what is in front.
abbrev pub behind_api : Text → List Text → List Text
behind_api before [] = []
behind_api before (line ∷ lines) =
    if is_api before && not (is_api line)
    then line ∷ behind_api line lines
    else behind_api line lines

-- The names behind those gathered before.
abbrev pub added : List Text → Option (List Text) → Option (List Text)
added func_list none = none
added func_list (some names) = some (func_list ++ names)

added-name :
    (func_list : List Text) (line name : Text) (lines : List Text)
    → api_name line ≡ some name
    → added (func_list ++ name ∷ []) (all_names lines) ≡ added func_list (all_names (line ∷ lines))
added-name func_list line name lines e = elim (Option-cases (all_names lines)) [
  | inl k ↦
      let step : all_names (line ∷ lines) ≡ none = rw (e, all_names) (rw k refl) in
      ap (added (func_list ++ name ∷ [])) k ∙ ap (added func_list) (sym step)
  | inr (names, k) ↦
      let step : all_names (line ∷ lines) ≡ some (name ∷ names) = rw (e, all_names) (rw k refl) in
      ap (added (func_list ++ name ∷ [])) k
      ∙ ap some (append_assoc func_list (name ∷ []) names)
      ∙ ap (added func_list) (sym step)
]

-- One line, behind another.
behind_api-is :
    (before line : Text) (lines : List Text)
    → is_api before ≡ true
    → is_api line ≡ false
    → behind_api before (line ∷ lines) ≡ line ∷ behind_api line lines
behind_api-is before line lines e other = rw e (rw other refl)

behind_api-first :
    (before line : Text) (lines : List Text)
    → is_api before ≡ false
    → behind_api before (line ∷ lines) ≡ behind_api line lines
behind_api-first before line lines e = rw e refl

behind_api-api :
    (before line : Text) (lines : List Text)
    → is_api line ≡ true
    → behind_api before (line ∷ lines) ≡ behind_api line lines
behind_api-api before line lines api = elim (Bool-cases (is_api before)) [
  | inl e ↦ rw e (rw api refl)
  | inr e ↦ rw e refl
]

no_name :
    (func_list : List Text) (line : Text) (lines : List Text)
    → api_name line ≡ none
    → added func_list (all_names (line ∷ lines)) ≡ none
no_name func_list line lines e = rw (e, added) refl

get_api_func_list-before :
    (before : Text) (flag : Bool) (lines func_list : List Text)
    → is_api before ≡ flag
    → get_api_func_list flag lines func_list ≡ added func_list (all_names (behind_api before lines))
unfolding get_api_func_list
get_api_func_list-before before flag [] func_list e = ap some (sym (append-nil func_list))
get_api_func_list-before before flag (line ∷ lines) func_list e = elim (Bool-cases (is_api line)) [
  | inl api ↦
      rw (behind_api-api before line lines api)
        (rw (api, get_api_func_list) (get_api_func_list-before line true lines func_list api))
  | inr other ↦ elim (Bool-cases flag) [
    | inr unset ↦ rw (behind_api-first before line lines (e ∙ unset)) (
        rw (other, get_api_func_list)
          (rw unset (get_api_func_list-before line false lines func_list other)))
    | inl set ↦ elim (Option-cases (api_name line)) [
      | inl k ↦ rw (behind_api-is before line lines (e ∙ set) other) (
          rw (other, get_api_func_list)
            (rw set (rw k (sym (no_name func_list line (behind_api line lines) k)))))
      | inr (name, k) ↦ rw (behind_api-is before line lines (e ∙ set) other) (
          rw (other, get_api_func_list)
            (rw set (
              rw k (
                get_api_func_list-before line false lines (func_list ++ name ∷ []) other
                ∙ added-name func_list line name (behind_api line lines) k))))
    ]
  ]
]

-- The functions of a header without callbacks are those that the lines name which stand directly behind a
-- line with `ZE_APICALL` and have none themselves, in their order and behind the ones gathered before; the
-- assertion fails if and only if one of those lines has no name.
pub get_api_func_list-behind_api :
    (lines func_list : List Text)
    → get_api_func_list false lines func_list ≡ added func_list (all_names (behind_api [] lines))
unfolding contains starts_with
get_api_func_list-behind_api lines func_list =
    get_api_func_list-before [] false lines func_list refl
