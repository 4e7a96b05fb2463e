-- ===== src/Browser/Browse/Update.antt =====
-- core/browse/update.py: `update`, which hands each event to its handler.
use apm_repo_sdk_python.Base.{[], ◌∷◌, none, some}
use apm_repo_sdk_python.Browser.Keys.{filter_text_changed, filter_closed}
use apm_repo_sdk_python.Browser.RemoteData.{RemoteData}
use apm_repo_sdk_python.Browser.Browse.Model.{BrowseModel, BrowseMsg, BrowseCmd}
use apm_repo_sdk_python.Browser.Browse.Handlers.{
  Outcome, if_held, with_repo, with_catalogs, with_workloads, with_versions, on_rescan_started,
  on_repo_added, on_catalogs_requested, on_catalogs_loaded, on_catalogs_load_failed,
  on_catalog_selected, on_workloads_load_failed, on_catalogs_refresh_failed, on_workload_selected,
  on_versions_load_failed, on_refresh_requested,
}
use apm_repo_sdk_python.Errors.{ok}

unfoldable pub update : BrowseModel → BrowseMsg → Outcome
unfolding on_rescan_started on_repo_added on_catalogs_requested on_catalogs_loaded
    on_catalogs_load_failed on_catalog_selected on_workloads_load_failed on_catalogs_refresh_failed
    on_workload_selected on_versions_load_failed on_refresh_requested
update model (BrowseMsg.rescan_started scan_path) = on_rescan_started model scan_path
update model (BrowseMsg.repo_added repo layout key_status) =
    on_repo_added model repo layout key_status
update model (BrowseMsg.repo_selected repo) = ok (model, BrowseCmd.set_current_repo repo ∷ [])
update model (BrowseMsg.catalogs_requested repo) = on_catalogs_requested model repo
update model (BrowseMsg.catalogs_loaded epoch request repo found) =
    on_catalogs_loaded model epoch request repo found
update model (BrowseMsg.catalogs_load_failed epoch request repo message) =
    on_catalogs_load_failed model epoch request repo message
update model (BrowseMsg.catalog_selected repo catalog) = on_catalog_selected model repo catalog
update model (BrowseMsg.workloads_loaded key found) =
    if_held model key.repo (λ _. ok (with_workloads model key (RemoteData.success found), []))
update model (BrowseMsg.workloads_load_failed catalog real_catalog info) =
    on_workloads_load_failed model catalog real_catalog info
update model (BrowseMsg.repo_key_status_refreshed repo key_status) =
    if_held model repo
      (λ state. ok (with_repo model repo (record state { key_status = key_status }), []))
update model (BrowseMsg.key_verified repo catalog_id) =
    ok (model, BrowseCmd.reload_catalogs_after_key_verified repo catalog_id ∷ [])
update model (BrowseMsg.catalogs_refreshed repo found) =
    if_held model repo (λ state. ok (with_catalogs model repo state (RemoteData.success found), []))
update model (BrowseMsg.catalogs_refresh_failed repo message) =
    on_catalogs_refresh_failed model repo message
update model (BrowseMsg.workload_selected workload) = on_workload_selected model workload
update model (BrowseMsg.versions_loaded key found) =
    if_held model key.catalog.repo
      (λ _. ok (with_versions model key (RemoteData.success found), []))
update model (BrowseMsg.versions_load_failed workload message) =
    on_versions_load_failed model workload message
update model BrowseMsg.refresh_requested = on_refresh_requested model
update model (BrowseMsg.tree_filter_opened tree parent_key) = ok (
  record model { tree_filter = some (record { tree = tree; parent_key = parent_key; text = "" }) },
  [],
)
update model (BrowseMsg.tree_filter_text_changed text) = ok (
  filter_text_changed model (λ m. m.tree_filter) (λ m s. record m { tree_filter = some s })
      (λ s t. record s { text = t }) text,
  [],
)
update model BrowseMsg.tree_filter_closed =
    ok (filter_closed model (λ m. m.tree_filter) (λ m. record m { tree_filter = none }), [])
update model BrowseMsg.version_filter_opened =
    ok (record model { version_filter = some (record { text = "" }) }, [])
update model (BrowseMsg.version_filter_text_changed text) = ok (
  filter_text_changed model (λ m. m.version_filter) (λ m s. record m { version_filter = some s })
      (λ s t. record s { text = t }) text,
  [],
)
update model BrowseMsg.version_filter_closed =
    ok (filter_closed model (λ m. m.version_filter) (λ m. record m { version_filter = none }), [])
update model (BrowseMsg.verbose_set verbose) = ok (record model { verbose = verbose }, [])
