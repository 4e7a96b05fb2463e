-- ===== src/Browser/Unit/Texts.antt =====
-- The notices of strings.py that the store shows.
use Prim.Native.String.{String, ◌++◌}
use apm_repo_sdk_python.Base.{ℕ, suc}
use apm_repo_sdk_python.Browser.Digits.{decimal_text}

unfoldable pub load_more_text : (loaded total : ℕ) → String
unfolding decimal_text
load_more_text loaded total =
    "loaded "
    ++ (decimal_text (suc loaded) loaded
        ++ (" more (" ++ (decimal_text (suc total) total ++ " total)")))

unfoldable pub nothing_to_load_warning : String
nothing_to_load_warning = "nothing loaded under this level yet — expand it first"

unfoldable pub already_complete_warning : String
already_complete_warning = "everything at this level is already loaded"

unfoldable pub already_loading_warning : String
already_loading_warning = "already loading more — please wait"

unfoldable pub goto_ref_not_found_warning : String
goto_ref_not_found_warning = "ref not found in this repository"
