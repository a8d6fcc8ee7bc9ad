-- ===== src/Loader.antt =====
-- `tools/unitrace/scripts/gen_l0_loader.py`: the names of the functions in the headers of Level Zero, and
-- the C++ code that declares and loads them. A header is the list of its lines; `none` is a failed
-- assertion. What a script writes to a file is the list of the texts it writes.
pub mod Symbols
pub mod Names
mod Tests
use pti_gpu_itt_only.Base.{
  Bool, true, false, ◌&&◌, List, [], ◌∷◌, ◌++◌, Option, none, some, if◌then◌else◌, drop, ◌>>=◌,
}
use pti_gpu_itt_only.Text.{Text, codes, contains, split, strip}

-- The name of the function in a callback's type.
unfoldable pub callback_name : Text → Option Text
callback_name line = elim (split line (codes "ze_pfn")) [
  | before ∷ rest ∷ [] ↦
      let parts = split rest (codes "Cb_t") in
      elim parts [
        | name ∷ behind ∷ [] ↦
            if contains rest (codes "Cb_t") then some (codes "ze" ++ strip name) else none
        | _ ↦ none
      ]
  | _ ↦ none
]

abbrev pub is_callback : Text → Bool
is_callback line = contains line (codes "ZE_APICALL") && contains line (codes "ze_pfn")

-- `get_func_list`
unfoldable pub get_func_list : List Text → List Text → Option (List Text)
get_func_list [] func_list = some func_list
get_func_list (line ∷ lines) func_list =
    let other = get_func_list lines func_list in
    elim (is_callback line) [
      | false ↦ other
      | true ↦ elim (callback_name line) [
        | none ↦ none
        | some name ↦ get_func_list lines (func_list ++ name ∷ [])
      ]
    ]

-- The name in front of the bracket of a function's line.
unfoldable pub api_name : Text → Option Text
api_name line = elim (split line (codes "(")) [ name ∷ rest ∷ [] ↦ some (strip name) | _ ↦ none ]

-- `get_api_func_list`: `api_line` says whether the line before was a `ZE_APICALL`.
unfoldable pub get_api_func_list : Bool → List Text → List Text → Option (List Text)
get_api_func_list api_line [] func_list = some func_list
get_api_func_list api_line (line ∷ lines) func_list = elim (contains line (codes "ZE_APICALL")) [
  | true ↦ get_api_func_list true lines func_list
  | false ↦ elim api_line [
    | false ↦ get_api_func_list false lines func_list
    | true ↦ elim (api_name line) [
      | none ↦ none
      | some name ↦ get_api_func_list false lines (func_list ++ name ∷ [])
    ]
  ]
]

abbrev pub reg_fname : Text → Text
reg_fname func = codes "zelTracer" ++ drop 2 func ++ codes "RegisterCallback"

abbrev pub declaration : Text → Text
declaration name = codes "  decltype(&" ++ name ++ codes ") " ++ name ++ codes "_ = nullptr;\n"

abbrev pub get_symbol : Text → Text
get_symbol name = codes "  LEVEL_ZERO_LOADER_GET_SYMBOL(" ++ name ++ codes ");\n"

-- The loops of `gen_loader` that write a line for each function, the registered ones' in two.
unfoldable pub write_registered : (Text → Text) → List Text → List Text
write_registered line [] = []
write_registered line (func ∷ funcs) =
    line (reg_fname func) ∷ line func ∷ write_registered line funcs

unfoldable pub write_api : (Text → Text) → List Text → List Text
write_api line [] = []
write_api line (func ∷ funcs) = line func ∷ write_api line funcs

-- `gen_loader`
unfoldable pub gen_loader : List Text → List Text → List Text
gen_loader register_func_list api_func_list =
    codes "public:\n"
    ∷ (write_registered declaration register_func_list
        ++ (write_api declaration api_func_list
            ++ (codes "private:\n"
                ∷ codes "  void init() {\n"
                ∷ (write_registered get_symbol register_func_list
                    ++ (write_api get_symbol api_func_list ++ codes "}\n" ∷ [])))))

-- The headers that `main` reads.
pub record Headers : Type 0 where
  pub ze_api : List Text
  pub zel_tracing_register_cb : List Text
  pub zet_api : List Text
  pub zes_api : List Text
  pub zel_tracing_api : List Text

-- `main`, with its arguments and the headers given: what is written to `l0_loader.gen`.
unfoldable pub generate : Headers → Option (List Text)
generate headers = do
  core ← get_func_list headers.ze_api []
  register_func_list ← get_func_list headers.zel_tracing_register_cb core
  tools ← get_api_func_list false headers.zet_api []
  system ← get_api_func_list false headers.zes_api tools
  api_func_list ← get_api_func_list false headers.zel_tracing_api system
  some (gen_loader register_func_list api_func_list)
