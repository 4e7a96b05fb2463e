-- ===== src/Browser/Browse/Rescan.antt =====
-- core/browse/update.py over time: what comes after a rescan about a repository from before it.
use mathlib.Core.Path.{subst}
use Prim.Native.String.{String}
use apm_repo_sdk_python.Base.{
  none_some, ◌≡◌, ◌≢◌, refl, sym, ap, ◌∙◌, Bool, true, false, Option-cases, inl, inr, List, [],
  Option, none, some, if◌then◌else◌,
}
use apm_repo_sdk_python.Base.Dict.{lookup, insert, lookup-insert_miss}
use apm_repo_sdk_python.Browser.Keys.{
  RepoHandle, repo_handle_deceq, catalog_key_deceq, workload_key_deceq, filter_text_changed,
  filter_closed,
}
use apm_repo_sdk_python.Browser.RemoteData.{is_pending_or_done, is_loading}
use apm_repo_sdk_python.Browser.Browse.Model.{
  Workload, catalog_key, workload_key, RepoState, key_of, BrowseModel, BrowseMsg, BrowseCmd,
}
use apm_repo_sdk_python.Browser.Browse.Handlers.{
  Outcome, asked, if_held, on_rescan_started, on_repo_added, on_catalogs_requested, is_stale_for,
  on_catalogs_loaded, on_catalogs_load_failed, on_catalog_selected, needs_key,
  on_workloads_load_failed, on_catalogs_refresh_failed, on_workload_selected,
  on_versions_load_failed, on_refresh_requested,
}
use apm_repo_sdk_python.Browser.Browse.Update.{update}
use apm_repo_sdk_python.Errors.{ok, raise}
use apm_repo_sdk_python.Browser.Browse.NotHeld.{about, passed, update-not_held}

-- The handle that an event adds.
unfoldable pub added : BrowseMsg → Option RepoHandle
added (BrowseMsg.repo_added k _ _) = some k
added _ = none

-- The model of an outcome, where there is one, does not hold the repository.
Gone : RepoHandle → Outcome → Type 0
Gone k (ok (n, _)) = lookup k n.repos ≡ none
Gone k (raise _) = Unit

branch-Gone :
    (k : RepoHandle) (b : Bool) (o p : Outcome) → Gone k o → Gone k p → Gone k (if b then o else p)
branch-Gone k true o p h i = h
branch-Gone k false o p h i = i

module _ (m : BrowseModel) (k : RepoHandle) (absent : lookup k m.repos ≡ none) where
  held-Gone :
      (j : RepoHandle) (handle : RepoState → Outcome)
      → ((state : RepoState) → j ≢ k → Gone k (handle state))
      → Gone k (if_held m j handle)
  unfolding Gone
  held-Gone j handle h = elim (Option-cases (lookup j m.repos)) [
    | inl e ↦ rw (e, if_held) absent
    | inr (state, e) ↦
        rw (e, if_held)
          (h state (λ p. none_some (sym absent ∙ (ap (λ i. lookup i m.repos) (sym p) ∙ e))))
  ]

  stays : (j : RepoHandle) (state : RepoState) → j ≢ k → lookup k (insert j state m.repos) ≡ none
  stays j state d = lookup-insert_miss j k state m.repos d ∙ absent

  chosen-Gone : (w : Workload) → Gone k (on_workload_selected m w)
  unfolding Gone on_workload_selected
  chosen-Gone w = elim (Option-cases m.selected_catalog) [
    | inl e ↦ rw (e, on_workload_selected) tt
    | inr (s, e) ↦
        rw (e, on_workload_selected)
          (branch-Gone k
            (is_pending_or_done (asked (lookup (workload_key (key_of s) w) m.workload_versions))) _
            _ absent absent)
  ]

  refresh-Gone : Gone k (on_refresh_requested m)
  unfolding Gone on_refresh_requested
  refresh-Gone = elim (Option-cases m.selected_workload) [
    | inl e ↦ elim (Option-cases m.selected_catalog) [
      | inl f ↦ rw (e, f, on_refresh_requested) absent
      | inr (s, f) ↦
          rw (e, f, on_refresh_requested)
            (branch-Gone k (is_loading (asked (lookup (key_of s) m.catalog_workloads))) _ _ absent
              absent)
    ]
    | inr (w, e) ↦ elim (Option-cases m.selected_catalog) [
      | inl f ↦ rw (e, f, on_refresh_requested) tt
      | inr (s, f) ↦
          rw (e, f, on_refresh_requested)
            (branch-Gone k
              (is_loading (asked (lookup (workload_key (key_of s) w) m.workload_versions))) _ _
              absent absent)
    ]
  ]

  filter_changed-Gone :
      {F T : Type 0} (get : BrowseModel → Option F) (put : BrowseModel → F → BrowseModel)
      (with_text : F → T → F) (text : T)
      → ((s : F) → lookup k (put m s).repos ≡ none)
      → Gone k (ok (filter_text_changed m get put with_text text, []))
  unfolding Gone
  filter_changed-Gone get put with_text text h = elim (Option-cases (get m)) [
    | inl e ↦ rw (e, filter_text_changed) absent
    | inr (s, e) ↦ rw (e, filter_text_changed) (h (with_text s text))
  ]

  filter_closed-Gone :
      {F : Type 0} (get : BrowseModel → Option F) (clear : BrowseModel → BrowseModel)
      → lookup k (clear m).repos ≡ none
      → Gone k (ok (filter_closed m get clear, []))
  unfolding Gone
  filter_closed-Gone get clear h = elim (Option-cases (get m)) [
    | inl e ↦ rw (e, filter_closed) absent
    | inr (s, e) ↦ rw (e, filter_closed) h
  ]

  update-Gone : (msg : BrowseMsg) → added msg ≢ some k → Gone k (update m msg)
  unfolding Gone added update on_rescan_started on_repo_added on_catalogs_requested
      on_catalogs_loaded on_catalogs_load_failed on_catalog_selected on_workloads_load_failed
      on_catalogs_refresh_failed on_versions_load_failed lookup
  update-Gone (BrowseMsg.rescan_started path) d = refl
  update-Gone (BrowseMsg.repo_added j layout status) d = stays j _ (λ p. d (ap some p))
  update-Gone (BrowseMsg.repo_selected j) d = absent
  update-Gone (BrowseMsg.catalogs_requested j) d =
      held-Gone j _
        (λ state e. branch-Gone k (is_pending_or_done state.catalogs) _ _ absent (stays j _ e))
  update-Gone (BrowseMsg.catalogs_loaded epoch request j found) d =
      branch-Gone k (is_stale_for m j epoch request) _ _ absent
        (held-Gone j _ (λ state e. stays j _ e))
  update-Gone (BrowseMsg.catalogs_load_failed epoch request j message) d =
      branch-Gone k (is_stale_for m j epoch request) _ _ absent
        (held-Gone j _ (λ state e. stays j _ e))
  update-Gone (BrowseMsg.catalog_selected j c) d = held-Gone j _ (λ state e.
      branch-Gone k (is_pending_or_done (asked (lookup (catalog_key j c) m.catalog_workloads))) _ _
        absent absent)
  update-Gone (BrowseMsg.workloads_loaded key found) d = held-Gone key.repo _ (λ state e. absent)
  update-Gone (BrowseMsg.workloads_load_failed key c info) d =
      held-Gone key.repo _ (λ state e. branch-Gone k (needs_key info.kind) _ _ absent absent)
  update-Gone (BrowseMsg.repo_key_status_refreshed j status) d =
      held-Gone j _ (λ state e. stays j _ e)
  update-Gone (BrowseMsg.key_verified j c) d = absent
  update-Gone (BrowseMsg.catalogs_refreshed j found) d = held-Gone j _ (λ state e. stays j _ e)
  update-Gone (BrowseMsg.catalogs_refresh_failed j message) d = held-Gone j _ (λ state e. absent)
  update-Gone (BrowseMsg.workload_selected w) d = chosen-Gone w
  update-Gone (BrowseMsg.versions_loaded key found) d =
      held-Gone key.catalog.repo _ (λ state e. absent)
  update-Gone (BrowseMsg.versions_load_failed key message) d =
      held-Gone key.catalog.repo _ (λ state e. absent)
  update-Gone BrowseMsg.refresh_requested d = refresh-Gone
  update-Gone (BrowseMsg.tree_filter_opened tree parent) d = absent
  update-Gone (BrowseMsg.tree_filter_text_changed text) d =
      filter_changed-Gone (λ n. n.tree_filter) (λ n s. record n { tree_filter = some s })
        (λ s t. record s { text = t }) text (λ _. absent)
  update-Gone BrowseMsg.tree_filter_closed d =
      filter_closed-Gone (λ n. n.tree_filter) (λ n. record n { tree_filter = none }) absent
  update-Gone BrowseMsg.version_filter_opened d = absent
  update-Gone (BrowseMsg.version_filter_text_changed text) d =
      filter_changed-Gone (λ n. n.version_filter) (λ n s. record n { version_filter = some s })
        (λ s t. record s { text = t }) text (λ _. absent)
  update-Gone BrowseMsg.version_filter_closed d =
      filter_closed-Gone (λ n. n.version_filter) (λ n. record n { version_filter = none }) absent
  update-Gone (BrowseMsg.verbose_set verbose) d = absent

-- Events without an exception, none of which adds the repository.
pub data RunWithout (k : RepoHandle) : BrowseModel → BrowseModel → Type 0 where
  done : {m : BrowseModel} → RunWithout k m m
  step :
      {m n p : BrowseModel} (msg : BrowseMsg) (cmds : List BrowseCmd)
      → added msg ≢ some k
      → update m msg ≡ ok (n, cmds)
      → RunWithout k n p
      → RunWithout k m p

RunWithout-gone :
    (k : RepoHandle) {m p : BrowseModel}
    → RunWithout k m p
    → lookup k m.repos ≡ none
    → lookup k p.repos ≡ none
unfolding Gone
RunWithout-gone k RunWithout.done absent = absent
RunWithout-gone k (RunWithout.step {m = m} msg cmds d e run) absent =
    RunWithout-gone k run (subst (Gone k) e (update-Gone m k absent msg d))

-- After a rescan, however many events follow it, an event about a repository of before it, whose
-- handle is not given to another, leaves the model as it is. Such an event is a request in the
-- repository, a result for it, its selection or a key verified for it. It starts nothing, but for two
-- that are handed on with no look at the repositories held: selecting the repository asks to make it
-- the current one, and a key verified for it asks to load its catalogs again.
pub rescan-not_held :
    (m n : BrowseModel) {p : BrowseModel} (path : String) (cmds : List BrowseCmd) (k : RepoHandle)
    (msg : BrowseMsg)
    → update m (BrowseMsg.rescan_started path) ≡ ok (n, cmds)
    → RunWithout k n p
    → about msg ≡ some k
    → update p msg ≡ ok (p, passed msg)
unfolding Gone update on_rescan_started lookup
rescan-not_held m n {p} path cmds k msg e run a =
    update-not_held p msg k a (RunWithout-gone k run (subst (Gone k) e refl))
