-- ===== src/Loader/Symbols.antt =====
-- The symbols that `gen_loader` declares and loads.
use pti_gpu_itt_only.Base.{◌≡◌, ◌∙◌, refl, ap, List, [], ◌∷◌, ◌++◌, map}
use pti_gpu_itt_only.Text.{Text, codes}
use pti_gpu_itt_only.Loader.{
  reg_fname, declaration, get_symbol, write_registered, write_api, gen_loader,
}

-- The symbols: of a registered function the one that registers it, and its own.
abbrev pub registered : List Text → List Text
registered [] = []
registered (func ∷ funcs) = reg_fname func ∷ func ∷ registered funcs

write-map :
    (line : Text → Text) (register_func_list api_func_list : List Text) (rest : List Text)
    → write_registered line register_func_list ++ (write_api line api_func_list ++ rest)
      ≡ map line (registered register_func_list ++ api_func_list) ++ rest
unfolding write_registered write_api
write-map line [] [] rest = refl
write-map line [] (func ∷ funcs) rest = ap (◌∷◌ (line func)) (write-map line [] funcs rest)
write-map line (func ∷ funcs) api_func_list rest =
    ap (λ lines. line (reg_fname func) ∷ line func ∷ lines)
      (write-map line funcs api_func_list rest)

-- The code that is written declares a pointer for each symbol and then, in `init`, loads each, the same
-- symbols in the same order.
pub gen_loader-map :
    (register_func_list api_func_list : List Text)
    → gen_loader register_func_list api_func_list
      ≡ codes "public:\n"
        ∷ (map declaration (registered register_func_list ++ api_func_list)
            ++ (codes "private:\n"
                ∷ codes "  void init() {\n"
                ∷ (map get_symbol (registered register_func_list ++ api_func_list)
                    ++ codes "}\n" ∷ [])))
unfolding gen_loader
gen_loader-map register_func_list api_func_list = ap (◌∷◌ (codes "public:\n")) (
    write-map declaration register_func_list api_func_list _
    ∙ ap
        (λ loads.
          map declaration (registered register_func_list ++ api_func_list)
          ++ (codes "private:\n" ∷ codes "  void init() {\n" ∷ loads))
        (write-map get_symbol register_func_list api_func_list (codes "}\n" ∷ [])))
