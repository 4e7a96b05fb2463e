-- ===== src/Browser/Browse/NotHeld.antt =====
-- core/browse/update.py: an event about a repository that the model does not hold.
use apm_repo_sdk_python.Base.{
  none_some, ◌≡◌, refl, ap, ◌∙◌, Bool, true, false, List, [], ◌∷◌, Option, none, some, some-cancel,
  if◌then◌else◌,
}
use apm_repo_sdk_python.Base.Dict.{lookup}
use apm_repo_sdk_python.Browser.Keys.{
  RepoHandle, repo_handle_deceq, catalog_key_deceq, workload_key_deceq,
}
use apm_repo_sdk_python.Browser.Browse.Model.{RepoState, BrowseModel, BrowseMsg, BrowseCmd}
use apm_repo_sdk_python.Browser.Browse.Handlers.{
  Outcome, if_held, on_catalogs_requested, is_stale_for, on_catalogs_loaded,
  on_catalogs_load_failed, on_catalog_selected, on_workloads_load_failed,
  on_catalogs_refresh_failed, on_versions_load_failed,
}
use apm_repo_sdk_python.Browser.Browse.Update.{update}
use apm_repo_sdk_python.Errors.{ok}

-- The repository that an event is about: a result of a fetch in it, a request in it, its selection,
-- or a key verified for it.
unfoldable pub about : BrowseMsg → Option RepoHandle
about (BrowseMsg.repo_selected k) = some k
about (BrowseMsg.key_verified k _) = some k
about (BrowseMsg.catalogs_requested k) = some k
about (BrowseMsg.catalogs_loaded _ _ k _) = some k
about (BrowseMsg.catalogs_load_failed _ _ k _) = some k
about (BrowseMsg.catalog_selected k _) = some k
about (BrowseMsg.workloads_loaded key _) = some key.repo
about (BrowseMsg.workloads_load_failed key _ _) = some key.repo
about (BrowseMsg.repo_key_status_refreshed k _) = some k
about (BrowseMsg.catalogs_refreshed k _) = some k
about (BrowseMsg.catalogs_refresh_failed k _) = some k
about (BrowseMsg.versions_loaded key _) = some key.catalog.repo
about (BrowseMsg.versions_load_failed key _) = some key.catalog.repo
about _ = none

-- What is handed on as an effect with no look at the repositories held.
unfoldable pub passed : BrowseMsg → List BrowseCmd
passed (BrowseMsg.repo_selected k) = BrowseCmd.set_current_repo k ∷ []
passed (BrowseMsg.key_verified k c) = BrowseCmd.reload_catalogs_after_key_verified k c ∷ []
passed _ = []

not_held :
    (m : BrowseModel) (j k : RepoHandle) (handle : RepoState → Outcome)
    → some j ≡ some k
    → lookup k m.repos ≡ none
    → if_held m j handle ≡ ok (m, [])
not_held m j k handle e absent =
    rw (ap (λ i. lookup i m.repos) (some-cancel e) ∙ absent, if_held) refl

either_way :
    (b : Bool) (m : BrowseModel) (o : Outcome)
    → o ≡ ok (m, [])
    → (if b then ok (m, []) else o) ≡ ok (m, [])
either_way true m o h = refl
either_way false m o h = h

-- An event about a repository that is not held changes nothing, and starts nothing but what is
-- handed on.
pub update-not_held :
    (m : BrowseModel) (msg : BrowseMsg) (k : RepoHandle)
    → about msg ≡ some k
    → lookup k m.repos ≡ none
    → update m msg ≡ ok (m, passed msg)
unfolding about passed update on_catalogs_requested on_catalogs_loaded on_catalogs_load_failed
    on_catalog_selected on_workloads_load_failed on_catalogs_refresh_failed on_versions_load_failed
update-not_held m (BrowseMsg.catalogs_requested j) k e absent = not_held m j k _ e absent
update-not_held m (BrowseMsg.catalogs_loaded epoch request j found) k e absent =
    either_way (is_stale_for m j epoch request) m _ (not_held m j k _ e absent)
update-not_held m (BrowseMsg.catalogs_load_failed epoch request j message) k e absent =
    either_way (is_stale_for m j epoch request) m _ (not_held m j k _ e absent)
update-not_held m (BrowseMsg.catalog_selected j c) k e absent = not_held m j k _ e absent
update-not_held m (BrowseMsg.workloads_loaded key found) k e absent =
    not_held m key.repo k _ e absent
update-not_held m (BrowseMsg.workloads_load_failed key c info) k e absent =
    not_held m key.repo k _ e absent
update-not_held m (BrowseMsg.repo_key_status_refreshed j status) k e absent =
    not_held m j k _ e absent
update-not_held m (BrowseMsg.catalogs_refreshed j found) k e absent = not_held m j k _ e absent
update-not_held m (BrowseMsg.catalogs_refresh_failed j message) k e absent =
    not_held m j k _ e absent
update-not_held m (BrowseMsg.versions_loaded key found) k e absent =
    not_held m key.catalog.repo k _ e absent
update-not_held m (BrowseMsg.versions_load_failed key message) k e absent =
    not_held m key.catalog.repo k _ e absent
update-not_held m (BrowseMsg.rescan_started _) k e absent = absurd (none_some e)
update-not_held m (BrowseMsg.repo_added _ _ _) k e absent = absurd (none_some e)
update-not_held m (BrowseMsg.repo_selected _) k e absent = refl
update-not_held m (BrowseMsg.key_verified _ _) k e absent = refl
update-not_held m (BrowseMsg.workload_selected _) k e absent = absurd (none_some e)
update-not_held m BrowseMsg.refresh_requested k e absent = absurd (none_some e)
update-not_held m (BrowseMsg.tree_filter_opened _ _) k e absent = absurd (none_some e)
update-not_held m (BrowseMsg.tree_filter_text_changed _) k e absent = absurd (none_some e)
update-not_held m BrowseMsg.tree_filter_closed k e absent = absurd (none_some e)
update-not_held m BrowseMsg.version_filter_opened k e absent = absurd (none_some e)
update-not_held m (BrowseMsg.version_filter_text_changed _) k e absent = absurd (none_some e)
update-not_held m BrowseMsg.version_filter_closed k e absent = absurd (none_some e)
update-not_held m (BrowseMsg.verbose_set _) k e absent = absurd (none_some e)
