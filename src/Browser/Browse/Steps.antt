-- ===== src/Browser/Browse/Steps.antt =====
-- core/browse/update.py: one event in a valid state.
use apm_repo_sdk_python.Base.{
  none_some, sym, ◌≡◌, ◌≢◌, refl, Option-cases, inl, inr, [], ◌∷◌, Option, none, some,
}
use apm_repo_sdk_python.Browser.Keys.{
  repo_handle_deceq, catalog_key_deceq, workload_key_deceq, filter_text_changed, filter_closed,
}
use apm_repo_sdk_python.Browser.RemoteData.{RemoteData, is_loading}
use apm_repo_sdk_python.Browser.Browse.Model.{
  Workload, SelectedCatalog, browse_slot_deceq, BrowseModel, BrowseMsg, BrowseCmd,
}
use apm_repo_sdk_python.Browser.Browse.Handlers.{Outcome, on_workload_selected}
use apm_repo_sdk_python.Browser.Browse.Update.{update}
use apm_repo_sdk_python.Browser.Browse.Valid.{IsValid, Answered}
use apm_repo_sdk_python.Errors.{ok, raise, Error}
use apm_repo_sdk_python.Browser.Browse.Asked.{answer}
use apm_repo_sdk_python.Browser.Browse.Answers.{
  added-Answered, catalogs-Answered, chosen-Answered, failed-Answered, key_status-Answered,
  load_failed-Answered, loaded-Answered, refresh-Answered, refresh_failed-Answered,
  requested-Answered, rescan-Answered, selected-Answered, versions_failed-Answered,
  versions_loaded-Answered, workloads_loaded-Answered,
}

filter_changed-Answered :
    {F T : Type 0} (m : BrowseModel) (get : BrowseModel → Option F)
    (put : BrowseModel → F → BrowseModel) (with_text : F → T → F) (text : T)
    → IsValid m
    → ((s : F) → IsValid (put m s))
    → Answered m (ok (filter_text_changed m get put with_text text, []))
filter_changed-Answered m get put with_text text v h = elim (Option-cases (get m)) [
  | inl e ↦ rw (e, filter_text_changed) (answer m m [] v tt)
  | inr (s, e) ↦ rw (e, filter_text_changed) (answer m (put m (with_text s text)) [] (h _) tt)
]

filter_closed-Answered :
    {F : Type 0} (m : BrowseModel) (get : BrowseModel → Option F)
    (clear : BrowseModel → BrowseModel)
    → IsValid m
    → IsValid (clear m)
    → Answered m (ok (filter_closed m get clear, []))
filter_closed-Answered m get clear v h = elim (Option-cases (get m)) [
  | inl e ↦ rw (e, filter_closed) (answer m m [] v tt)
  | inr (s, e) ↦ rw (e, filter_closed) (answer m (clear m) [] h tt)
]

-- A workload is selected under a catalog, and the assertion fails where none is. Selecting a
-- repository and a verified key are handed on as effects, whether or not the repository is held;
-- every other event is answered from the model.
abbrev pub Handles : BrowseModel → BrowseMsg → Outcome → Type 0
Handles m (BrowseMsg.workload_selected w) o = elim m.selected_catalog [
  | none ↦ o ≡ raise Error.assertion_error
  | some _ ↦ Answered m o
]
Handles m (BrowseMsg.repo_selected k) o = o ≡ ok (m, BrowseCmd.set_current_repo k ∷ [])
Handles m (BrowseMsg.key_verified k c) o =
    o ≡ ok (m, BrowseCmd.reload_catalogs_after_key_verified k c ∷ [])
Handles m _ o = Answered m o

where_selected :
    (selected : Option SelectedCatalog) (A B : Type 0)
    → (selected ≡ none → A)
    → (selected ≢ none → B)
    → elim selected as (λ s. Type 0) [ none ↦ A | some _ ↦ B ]
where_selected none A B h k = h refl
where_selected (some s) A B h k = k (λ e. none_some (sym e))

workload_selected-Handles :
    (m : BrowseModel) (w : Workload)
    → IsValid m
    → Handles m (BrowseMsg.workload_selected w) (on_workload_selected m w)
unfolding on_workload_selected
workload_selected-Handles m w v =
    where_selected m.selected_catalog _ _ (λ e. rw (e, on_workload_selected) refl)
      (chosen-Answered m v w)

-- In a valid model every event leaves a valid model, without an exception, but for the assertion
-- where a workload is selected while no catalog is. Selecting a repository and a verified key leave
-- the model as it is and ask for just the effect of that name, with no look at the repositories
-- held. Every other event asks for catalogs, workloads or versions only of a repository that the
-- new model holds, where the list was not on its way before and is now, with the epoch and the
-- awaited number for catalogs; it prompts for a key only of a repository held, closes just the
-- repositories of before, and makes a repository the current one only where it is the first.
pub update-Answered : (m : BrowseModel) (msg : BrowseMsg) → IsValid m → Handles m msg (update m msg)
unfolding update is_loading
update-Answered m (BrowseMsg.rescan_started path) v = rescan-Answered m v path
update-Answered m (BrowseMsg.repo_added k layout status) v = added-Answered m v k layout status
update-Answered m (BrowseMsg.repo_selected k) v = refl
update-Answered m (BrowseMsg.catalogs_requested k) v = requested-Answered m v k
update-Answered m (BrowseMsg.catalogs_loaded epoch request k found) v =
    loaded-Answered m v epoch request k found
update-Answered m (BrowseMsg.catalogs_load_failed epoch request k message) v =
    load_failed-Answered m v epoch request k message
update-Answered m (BrowseMsg.catalog_selected k c) v = selected-Answered m v k c
update-Answered m (BrowseMsg.workloads_loaded key found) v = workloads_loaded-Answered m v key found
update-Answered m (BrowseMsg.workloads_load_failed key c info) v = failed-Answered m v key c info
update-Answered m (BrowseMsg.repo_key_status_refreshed k status) v =
    key_status-Answered m v k status
update-Answered m (BrowseMsg.key_verified k c) v = refl
update-Answered m (BrowseMsg.catalogs_refreshed k found) v =
    catalogs-Answered m v k (RemoteData.success found) refl
update-Answered m (BrowseMsg.catalogs_refresh_failed k message) v =
    refresh_failed-Answered m v k message
update-Answered m (BrowseMsg.workload_selected w) v = workload_selected-Handles m w v
update-Answered m (BrowseMsg.versions_loaded key found) v =
    versions_loaded-Answered m v key (RemoteData.success found)
update-Answered m (BrowseMsg.versions_load_failed key message) v =
    versions_failed-Answered m v key message
update-Answered m BrowseMsg.refresh_requested v = refresh-Answered m v
update-Answered m (BrowseMsg.tree_filter_opened tree parent) v = answer m _ _ v tt
update-Answered m (BrowseMsg.tree_filter_text_changed text) v =
    filter_changed-Answered m (λ n. n.tree_filter) (λ n s. record n { tree_filter = some s })
      (λ s t. record s { text = t }) text v (λ _. v)
update-Answered m BrowseMsg.tree_filter_closed v =
    filter_closed-Answered m (λ n. n.tree_filter) (λ n. record n { tree_filter = none }) v v
update-Answered m BrowseMsg.version_filter_opened v = answer m _ _ v tt
update-Answered m (BrowseMsg.version_filter_text_changed text) v =
    filter_changed-Answered m (λ n. n.version_filter) (λ n s. record n { version_filter = some s })
      (λ s t. record s { text = t }) text v (λ _. v)
update-Answered m BrowseMsg.version_filter_closed v =
    filter_closed-Answered m (λ n. n.version_filter) (λ n. record n { version_filter = none }) v v
update-Answered m (BrowseMsg.verbose_set verbose) v = answer m _ _ v tt
