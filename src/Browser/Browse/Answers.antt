-- ===== src/Browser/Browse/Answers.antt =====
-- core/browse/update.py: each handler in a valid state.
use mathlib.Core.Path.{subst}
use Prim.Native.String.{String}
use apm_repo_sdk_python.Base.{
  none_some, ◌+◌, ◌≡◌, ◌≢◌, refl, sym, ◌∙◌, Bool, true, false, Option-cases, inl, inr, List, [],
  ◌∷◌, none, some, some-cancel,
}
use apm_repo_sdk_python.Base.Dict.{lookup, insert, lookup-insert_hit}
use apm_repo_sdk_python.Browser.Keys.{
  Epoch, RequestId, RepoHandle, CatalogKey, WorkloadKey, repo_handle_deceq, catalog_key_deceq,
  workload_key_deceq,
}
use apm_repo_sdk_python.Browser.RemoteData.{
  FailureInfo, RemoteData, is_loading, is_pending_or_done, loading_preserving,
}
use apm_repo_sdk_python.Browser.Browse.Model.{
  RepositoryLayout, KeyStatus, Catalog, Workload, Version, browse_slot_deceq, catalogs_slot,
  catalog_key, workload_key, RepoState, SelectedCatalog, key_of, BrowseModel, BrowseCmd,
}
use apm_repo_sdk_python.Browser.Browse.Handlers.{
  Outcome, asked, if_held, rescanned, unloaded, with_repo, on_rescan_started, on_repo_added,
  on_catalogs_requested, is_stale_for, on_catalogs_loaded, on_catalogs_load_failed,
  on_catalog_selected, catalog_chosen, with_workloads, with_versions, needs_key,
  on_workloads_load_failed, on_catalogs_refresh_failed, on_workload_selected,
  on_versions_load_failed, refresh_versions, refresh_workloads, on_refresh_requested,
}
use apm_repo_sdk_python.Browser.Browse.Valid.{
  IsValid, Answered, some_held, IsValid-repo, IsValid-workloads, IsValid-versions, IsValid-selected,
  IsValid-chosen, IsValid-numbered,
}
use apm_repo_sdk_python.Errors.{ok}
use apm_repo_sdk_python.Browser.Browse.Asked.{
  branch-Answered, not_asked_loads, differ, preserving_loads, answer, close_cmds-IsAsked,
  first_cmds-IsAsked, workloads_asked, versions_asked, loads_none, not_loading, repo_absent,
  catalog_absent, version_absent,
}

module _ (m : BrowseModel) (v : IsValid m) where
  held-Answered :
      (k : RepoHandle) (handle : RepoState → Outcome)
      → ((state : RepoState) → lookup k m.repos ≡ some state → Answered m (handle state))
      → Answered m (if_held m k handle)
  held-Answered k handle h = elim (Option-cases (lookup k m.repos)) [
    | inl e ↦ rw (e, if_held) (_, refl, v, tt)
    | inr (state, e) ↦ rw (e, if_held) (h state e)
  ]

  pub rescan-Answered : (path : String) → Answered m (on_rescan_started m path)
  unfolding on_rescan_started
  rescan-Answered path =
      answer m _ _
        (record {
          held_workloads = λ k h. absurd (h (catalog_absent k));
          held_versions = λ k h. absurd (h (version_absent k));
          held_selected = λ s e. absurd (none_some e);
          under_catalog = λ h. absurd (h refl);
          numbered = v.numbered;
          awaited = λ k state e. absurd (none_some (sym (repo_absent k) ∙ e));
        })
        (close_cmds-IsAsked m (rescanned m path) m.repos refl refl)

  pub added-Answered :
      (k : RepoHandle) (layout : RepositoryLayout) (status : KeyStatus)
      → Answered m (on_repo_added m k layout status)
  unfolding on_repo_added
  added-Answered k layout status =
      answer m _ _ (IsValid-repo m v k _ (λ l. absurd (not_asked_loads _ l))) (
        first_cmds-IsAsked m (with_repo m k (unloaded layout status)) m.repos k refl (
          some_held _ (unloaded layout status)
            (lookup-insert_hit k k (unloaded layout status) m.repos refl)))

  numbered : RepoHandle → BrowseModel
  numbered k = record m {
    next_request = m.next_request + 1;
    inflight = insert (catalogs_slot k) m.next_request m.inflight;
  }

  pub requested-Answered : (k : RepoHandle) → Answered m (on_catalogs_requested m k)
  unfolding on_catalogs_requested numbered
  requested-Answered k = held-Answered k _ (λ state e.
      branch-Answered m (is_pending_or_done state.catalogs) _ _ (λ _. (_, refl, v, tt))
        (λ free.
          let slot =
            lookup-insert_hit (catalogs_slot k) (catalogs_slot k) m.next_request m.inflight refl in
          answer m _ _
            (IsValid-repo (numbered k) (IsValid-numbered m v k) k _
              (λ _. some_held _ m.next_request slot))
            (
              (
                refl,
                slot,
                state,
                e,
                not_loading state.catalogs free,
                record state { catalogs = RemoteData.loading none },
                lookup-insert_hit k k _ m.repos refl,
                loads_none _,
              ),
              tt,
            )))

  -- A repository's catalogs are known, or what became of them.
  pub catalogs-Answered :
      (k : RepoHandle) (found : RemoteData (List Catalog))
      → is_loading found ≡ false
      → Answered m (
          if_held m k (λ state.
            ok (record m { repos = insert k (record state { catalogs = found }) m.repos }, [])))
  catalogs-Answered k found e =
      held-Answered k _
        (λ state h. (_, refl, IsValid-repo m v k _ (λ l. absurd (differ (sym l ∙ e))), tt))

  pub selected-Answered : (k : RepoHandle) (c : Catalog) → Answered m (on_catalog_selected m k c)
  unfolding on_catalog_selected
  selected-Answered k c = held-Answered k _ (λ state e.
      let held = some_held (lookup k m.repos) state e in
      let chosen : IsValid (catalog_chosen m k c) = IsValid-selected m v _ (λ s p.
        subst (λ (x : SelectedCatalog). lookup x.repo m.repos ≢ none) (some-cancel p) held) in
      branch-Answered m (is_pending_or_done (asked (lookup (catalog_key k c) m.catalog_workloads)))
        _ _ (λ _. (_, refl, chosen, tt))
        (λ free. (
          _,
          refl,
          IsValid-workloads (catalog_chosen m k c) chosen (catalog_key k c)
              (RemoteData.loading none) held,
          (
            (
              not_loading _ free,
              workloads_asked (catalog_key k c) (RemoteData.loading none) m.catalog_workloads
                  (loads_none _),
              held,
            ),
            tt,
          ),
        )))

  pub failed-Answered :
      (key : CatalogKey) (c : Catalog) (info : FailureInfo)
      → Answered m (on_workloads_load_failed m key c info)
  unfolding on_workloads_load_failed
  failed-Answered key c info = held-Answered key.repo _ (λ state e.
      let held = some_held (lookup key.repo m.repos) state e in
      branch-Answered m (needs_key info.kind) _ _
        (λ _. answer m _ _ (IsValid-workloads m v key RemoteData.not_asked held) (held, tt))
        (λ _. answer m _ _ (IsValid-workloads m v key (RemoteData.failure info) held) tt))

  pub refresh_failed-Answered :
      (k : RepoHandle) (message : String) → Answered m (on_catalogs_refresh_failed m k message)
  unfolding on_catalogs_refresh_failed
  refresh_failed-Answered k message =
      held-Answered k _
        (λ state e. answer m _ _ (IsValid-selected m v none (λ s p. absurd (none_some p))) tt)

  -- The versions of a workload of the selected catalog are asked for.
  versions-Answered :
      (n : BrowseModel) (s : SelectedCatalog) (w : Workload) (invalidate : Bool)
      (found : RemoteData (List Version))
      → IsValid n
      → lookup s.repo n.repos ≢ none
      → is_loading (asked (lookup (workload_key (key_of s) w) m.workload_versions)) ≡ false
      → is_loading found ≡ true
      → Answered m (
          ok (
            with_versions n (workload_key (key_of s) w) found,
            BrowseCmd.load_versions s.repo s.catalog w invalidate ∷ [],
          ))
  versions-Answered n s w invalidate found valid held free loads =
      answer m _ _ (IsValid-versions n valid (workload_key (key_of s) w) found held) (
        (free, versions_asked (workload_key (key_of s) w) found n.workload_versions loads, held),
        tt,
      )

  pub chosen-Answered :
      (w : Workload) → m.selected_catalog ≢ none → Answered m (on_workload_selected m w)
  unfolding on_workload_selected
  chosen-Answered w under = elim (Option-cases m.selected_catalog) [
    | inl e ↦ absurd (under e)
    | inr (s, e) ↦
        rw (e, on_workload_selected)
          (branch-Answered m
            (is_pending_or_done (asked (lookup (workload_key (key_of s) w) m.workload_versions))) _
            _ (λ _. answer m _ _ (IsValid-chosen m v w under) tt)
            (λ free.
              versions-Answered (record m { selected_workload = some w }) s w false _
                (IsValid-chosen m v w under) (v.held_selected s e) (not_loading _ free)
                (loads_none _)))
  ]

  refresh_versions-Answered :
      (s : SelectedCatalog) (w : Workload)
      → m.selected_catalog ≡ some s
      → Answered m (refresh_versions m s w)
  refresh_versions-Answered s w e =
      let stale = asked (lookup (workload_key (key_of s) w) m.workload_versions) in
      branch-Answered m (is_loading stale) _ _ (λ _. answer m m [] v tt)
        (λ free.
          versions-Answered m s w true (loading_preserving stale) v (v.held_selected s e) free
            (preserving_loads stale))

  refresh_workloads-Answered :
      (s : SelectedCatalog) → m.selected_catalog ≡ some s → Answered m (refresh_workloads m s)
  refresh_workloads-Answered s e =
      let stale = asked (lookup (key_of s) m.catalog_workloads) in
      let held = v.held_selected s e in
      branch-Answered m (is_loading stale) _ _ (λ _. answer m m [] v tt)
        (λ free. answer m _ _ (IsValid-workloads m v (key_of s) (loading_preserving stale) held) (
          (
            free,
            workloads_asked (key_of s) (loading_preserving stale) m.catalog_workloads
                (preserving_loads stale),
            held,
          ),
          tt,
        ))

  pub refresh-Answered : Answered m (on_refresh_requested m)
  unfolding on_refresh_requested
  refresh-Answered = elim (Option-cases m.selected_workload) [
    | inl e ↦ elim (Option-cases m.selected_catalog) [
      | inl f ↦ rw (e, f, on_refresh_requested) (answer m m [] v tt)
      | inr (s, f) ↦ rw (e, f, on_refresh_requested) (refresh_workloads-Answered s f)
    ]
    | inr (w, e) ↦ elim (Option-cases m.selected_catalog) [
      | inl f ↦ absurd (v.under_catalog (some_held _ w e) f)
      | inr (s, f) ↦ rw (e, f, on_refresh_requested) (refresh_versions-Answered s w f)
    ]
  ]

  pub loaded-Answered :
      (epoch : Epoch) (request : RequestId) (k : RepoHandle) (found : List Catalog)
      → Answered m (on_catalogs_loaded m epoch request k found)
  unfolding on_catalogs_loaded is_loading
  loaded-Answered epoch request k found =
      branch-Answered m (is_stale_for m k epoch request) _ _ (λ _. answer m m [] v tt)
        (λ _. catalogs-Answered k (RemoteData.success found) refl)

  pub load_failed-Answered :
      (epoch : Epoch) (request : RequestId) (k : RepoHandle) (message : String)
      → Answered m (on_catalogs_load_failed m epoch request k message)
  unfolding on_catalogs_load_failed is_loading
  load_failed-Answered epoch request k message =
      branch-Answered m (is_stale_for m k epoch request) _ _ (λ _. answer m m [] v tt)
        (λ _. catalogs-Answered k (RemoteData.failure _) refl)

  -- A list is stored under its key, of a repository that is held.
  pub workloads_loaded-Answered :
      (key : CatalogKey) (found : List Workload)
      → Answered m
          (if_held m key.repo (λ _. ok (with_workloads m key (RemoteData.success found), [])))
  workloads_loaded-Answered key found =
      held-Answered key.repo _
        (λ state e. answer m _ _ (IsValid-workloads m v key _ (some_held _ state e)) tt)

  pub versions_loaded-Answered :
      (key : WorkloadKey) (found : RemoteData (List Version))
      → Answered m (if_held m key.catalog.repo (λ _. ok (with_versions m key found, [])))
  versions_loaded-Answered key found =
      held-Answered key.catalog.repo _
        (λ state e. answer m _ _ (IsValid-versions m v key found (some_held _ state e)) tt)

  pub versions_failed-Answered :
      (key : WorkloadKey) (message : String) → Answered m (on_versions_load_failed m key message)
  unfolding on_versions_load_failed
  versions_failed-Answered key message = versions_loaded-Answered key (RemoteData.failure _)

  -- The key's state is read again; what is known of the catalogs stays.
  pub key_status-Answered :
      (k : RepoHandle) (status : KeyStatus)
      → Answered m
          (if_held m k (λ state. ok (with_repo m k (record state { key_status = status }), [])))
  key_status-Answered k status =
      held-Answered k _ (λ state e. answer m _ _ (IsValid-repo m v k _ (v.awaited k state e)) tt)
