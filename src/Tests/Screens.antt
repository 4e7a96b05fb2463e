-- ===== src/Tests/Screens.antt =====
-- core/browse at concrete models.
use apm_repo_sdk_python.Base.{none_some, ◌≡◌, refl, true, [], ◌∷◌}
use apm_repo_sdk_python.Base.Dict.{lookup, insert}
use apm_repo_sdk_python.Browser.Keys.{
  RepoHandle, repo_handle_deceq, catalog_key_deceq, workload_key_deceq,
}
use apm_repo_sdk_python.Browser.RemoteData.{RemoteData, is_loading}
use apm_repo_sdk_python.Browser.Browse.Model.{
  KeyStatus, browse_slot_deceq, BrowseModel, initial, BrowseMsg, BrowseCmd,
}
use apm_repo_sdk_python.Browser.Browse.Handlers.{on_rescan_started, rescanned, unloaded, with_repo}
use apm_repo_sdk_python.Browser.Browse.Update.{update}
use apm_repo_sdk_python.Browser.Browse.Valid.{IsValid, Answered, IsValid-repo}
use apm_repo_sdk_python.Browser.Browse.Steps.{update-Answered}
use apm_repo_sdk_python.Browser.Browse.Rescan.{RunWithout, rescan-not_held}
use apm_repo_sdk_python.Browser.Browse.NotHeld.{about, passed}
use apm_repo_sdk_python.Errors.{ok}

initial-IsValid : IsValid initial
unfolding lookup
initial-IsValid = record {
  held_workloads = λ k h. absurd (h refl);
  held_versions = λ k h. absurd (h refl);
  held_selected = λ s e. absurd (none_some e);
  under_catalog = λ h. absurd (h refl);
  numbered = λ s r e. absurd (none_some e);
  awaited = λ k state e. absurd (none_some e);
}

abbrev vault : RepoHandle
vault = record { id = 7 }

-- One repository, whose catalogs have not been asked for.
abbrev one_repo : BrowseModel
one_repo = with_repo initial vault (unloaded 0 KeyStatus.not_encrypted)

not_asked_loads : (T : Type 0) → is_loading {T = T} RemoteData.not_asked ≡ true → ⊥
unfolding is_loading
not_asked_loads T e = cc

one_repo-IsValid : IsValid one_repo
one_repo-IsValid = IsValid-repo initial initial-IsValid vault _ (λ l. absurd (not_asked_loads _ l))

update-Answered_example : Answered one_repo (update one_repo (BrowseMsg.catalogs_requested vault))
update-Answered_example =
    update-Answered one_repo (BrowseMsg.catalogs_requested vault) one_repo-IsValid

rescan_run :
    update one_repo (BrowseMsg.rescan_started "other")
    ≡ ok (rescanned one_repo "other", BrowseCmd.close_repos (vault ∷ []) ∷ [])
unfolding update on_rescan_started insert
rescan_run = refl

-- The catalogs of the repository arrive after the rescan.
rescan-not_held_example :
    update (rescanned one_repo "other") (BrowseMsg.catalogs_loaded 0 1 vault [])
    ≡ ok (rescanned one_repo "other", [])
unfolding about passed
rescan-not_held_example =
    rescan-not_held one_repo (rescanned one_repo "other") "other"
      (BrowseCmd.close_repos (vault ∷ []) ∷ []) vault (BrowseMsg.catalogs_loaded 0 1 vault [])
      rescan_run RunWithout.done refl
