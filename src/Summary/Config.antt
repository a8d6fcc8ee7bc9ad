-- ===== src/Summary/Config.antt =====
-- `aprocess` of `tools/unitrace/scripts/summary/categorize.py`: the tags of an INI file. What
-- `ConfigParser` reads of the file is given, section by section, each with its name and its options.
pub mod Lookup
mod Tests
use mathlib.Core.List.{reverse}
use pti_gpu_itt_only.Base.{
  Bool, true, false, ◌||◌, List, [], ◌∷◌, ◌++◌, ◌==◌, Option, none, some, if◌then◌else◌, length,
  drop, ◌>>=◌,
}
use pti_gpu_itt_only.Text.{Text, codes, text_eq, starts_with, strip}
use pti_gpu_itt_only.Summary.{Tree}
use pti_gpu_itt_only.Summary.Tags.{Tag, build_search_tree}

-- An option: the text in front of `:=`, and the text behind it where there is one.
abbrev pub ConfigOption : Type 0
ConfigOption = Text × Option Text

abbrev pub Section : Type 0
Section = Text × List ConfigOption

-- `s.partition( sep )`, without the separator: the texts in front of it and behind it.
unfoldable pub partition : Text → Text → Text × Text
partition [] sep = ([], [])
partition (c ∷ s) sep =
    let (before, behind) = partition s sep in
    if starts_with (c ∷ s) sep then ([], drop (length sep) (c ∷ s)) else (c ∷ before, behind)

-- `s.translate( remove_spaces )`
unfoldable pub without_spaces : Text → Text
without_spaces [] = []
without_spaces (c ∷ s) = let rest = without_spaces s in if c == 32 || c == 9 then rest else c ∷ rest

-- The category of a section, and its verb.
unfoldable pub section_name : Text → Text × Text
section_name name =
    let (category, verb) = partition name (codes " if ") in
    ((partition (strip category) (codes ".")).0, without_spaces verb)

-- The tag of an option.
unfoldable pub option_tag : Bool → ConfigOption → Text
option_tag remove_spaces (tag1, none) = if remove_spaces then without_spaces tag1 else tag1
option_tag remove_spaces (tag1, some tag2) =
    let tag = tag1 ++ codes ":=" ++ tag2 in if remove_spaces then without_spaces tag else tag

-- The loop over the options of a section, whose tags match names from their end.
unfoldable pub reverse_tags : Bool → Text → List ConfigOption → List Tag
reverse_tags remove_spaces category [] = []
reverse_tags remove_spaces category (option ∷ options) =
    (reverse (option_tag remove_spaces option), category, false)
    ∷ reverse_tags remove_spaces category options

-- The loop over the options of another section.
unfoldable pub direct_tags : Bool → Text → Bool → List ConfigOption → List Tag
direct_tags remove_spaces category is_exact [] = []
direct_tags remove_spaces category is_exact (option ∷ options) =
    (option_tag remove_spaces option, category, is_exact)
    ∷ direct_tags remove_spaces category is_exact options

-- `config.default_section`
abbrev pub default_section : Text
default_section = codes "DEFAULT"

-- The loop over the sections: `direct_search` and `reverse_search`.
unfoldable pub all_tags : Bool → List Section → List Tag × List Tag
all_tags remove_spaces [] = ([], [])
all_tags remove_spaces ((name, options) ∷ sections) =
    let (direct_search, reverse_search) = all_tags remove_spaces sections in
    let (category, verb) = section_name name in
    if text_eq name default_section
    then (direct_search, reverse_search)
    else if text_eq verb (codes "endswith")
    then (direct_search, reverse_tags remove_spaces category options ++ reverse_search)
    else (
      direct_tags remove_spaces category (text_eq verb (codes "equalsto")) options ++ direct_search,
      reverse_search,
    )

-- The trees `direct` and `reverse` of the schema, or the error of building one of no tags.
unfoldable pub schema : Bool → List Section → Option (Tree × Tree)
schema remove_spaces sections = do
  let (direct_search, reverse_search) = all_tags remove_spaces sections
  direct ← build_search_tree (length direct_search) direct_search
  backward ← build_search_tree (length reverse_search) reverse_search
  some (direct, backward)
