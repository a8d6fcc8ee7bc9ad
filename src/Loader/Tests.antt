-- ===== src/Loader/Tests.antt =====
-- Lines of headers, and the theorems at them.
use pti_gpu_itt_only.Base.{◌≡◌, refl, false, List, [], ◌∷◌, none, some}
use pti_gpu_itt_only.Text.{
  Text, codes, contains, starts_with, strip, lstrip, rstrip, is_space, split_on,
}
use pti_gpu_itt_only.Loader.{callback_name, get_func_list, api_name, get_api_func_list}
use pti_gpu_itt_only.Loader.Names.{all_names, behind_api, added, get_api_func_list-behind_api}

abbrev api_header : List Text
api_header =
    codes "ZE_APIEXPORT ze_result_t ZE_APICALL"
    ∷ codes "zetModuleGetDebugInfo("
    ∷ codes "    zet_module_handle_t hModule,"
    ∷ []

one_function : get_api_func_list false api_header [] ≡ some (codes "zetModuleGetDebugInfo" ∷ [])
unfolding get_api_func_list api_name contains starts_with strip lstrip rstrip is_space split_on
one_function = refl

one_callback :
    get_func_list
      (codes "typedef void (ZE_APICALL *ze_pfnInitCb_t)("
        ∷ codes "    ze_init_params_t* params,"
        ∷ [])
      []
    ≡ some (codes "zeInit" ∷ [])
unfolding get_func_list callback_name contains starts_with strip lstrip rstrip is_space split_on
one_callback = refl

-- Two callbacks on a line.
two_callbacks : get_func_list (codes "ZE_APICALL ze_pfnInitCb_t ze_pfnInitCb_t" ∷ []) [] ≡ none
unfolding get_func_list callback_name contains starts_with strip lstrip rstrip is_space split_on
two_callbacks = refl

get_api_func_list-behind_api_example :
    get_api_func_list false api_header [] ≡ added [] (all_names (behind_api [] api_header))
get_api_func_list-behind_api_example = get_api_func_list-behind_api api_header []
