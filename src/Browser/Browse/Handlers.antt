-- ===== src/Browser/Browse/Handlers.antt =====
-- core/browse/update.py: the handlers of the store of the browse screen. A result about a
-- repository that the model does not hold any more is dropped.
use Prim.Native.String.{String}
use apm_repo_sdk_python.Base.{
  ◌+◌, Bool, true, false, List, [], ◌∷◌, Option, none, some, if◌then◌else◌, map,
}
use apm_repo_sdk_python.Base.Dict.{Dict, lookup, insert}
use apm_repo_sdk_python.Browser.Keys.{
  Epoch, RequestId, RepoHandle, CatalogKey, WorkloadKey, repo_handle_deceq, catalog_key_deceq,
  workload_key_deceq, is_stale,
}
use apm_repo_sdk_python.Browser.RemoteData.{
  FailureKind, FailureInfo, RemoteData, loading_preserving, is_pending_or_done, is_loading,
}
use apm_repo_sdk_python.Browser.Browse.Model.{
  RepositoryLayout, KeyStatus, Catalog, Workload, Version, browse_slot_deceq, catalogs_slot,
  catalog_key, workload_key, RepoState, SelectedCatalog, key_of, BrowseModel, BrowseCmd,
}
use apm_repo_sdk_python.Errors.{Result, ok, raise, Error}

abbrev pub Outcome : Type 0
Outcome = Result (BrowseModel × List BrowseCmd)

-- `mapping.get(key, NotAsked())`.
abbrev pub asked : {T : Type 0} → Option (RemoteData T) → RemoteData T
asked none = RemoteData.not_asked
asked (some data') = data'

abbrev pub with_repo : BrowseModel → RepoHandle → RepoState → BrowseModel
with_repo model repo state = record model { repos = insert repo state model.repos }

-- `if repo not in model.repos: return model, ()`, before the rest of a handler.
abbrev pub if_held : BrowseModel → RepoHandle → (RepoState → Outcome) → Outcome
if_held model repo handle = elim (lookup repo model.repos) [
  | none ↦ ok (model, [])
  | some state ↦ handle state
]

abbrev pub close_cmds : Dict RepoHandle RepoState → List BrowseCmd
close_cmds [] = []
close_cmds (entry ∷ rest) = BrowseCmd.close_repos (map (λ p. p.0) (entry ∷ rest)) ∷ []

abbrev pub rescanned : BrowseModel → String → BrowseModel
rescanned model scan_path = record model {
  epoch = model.epoch + 1;
  scan_path = scan_path;
  repos = [];
  catalog_workloads = [];
  workload_versions = [];
  selected_catalog = none;
  selected_workload = none;
  reload_failure = none;
  tree_filter = none;
  version_filter = none;
}

unfoldable pub on_rescan_started : BrowseModel → String → Outcome
on_rescan_started model scan_path = ok (rescanned model scan_path, close_cmds model.repos)

abbrev pub first_cmds : Dict RepoHandle RepoState → RepoHandle → List BrowseCmd
first_cmds [] repo = BrowseCmd.set_current_repo repo ∷ []
first_cmds (_ ∷ _) repo = []

-- `RepoState(layout=..., key_status=...)`.
abbrev pub unloaded : RepositoryLayout → KeyStatus → RepoState
unloaded layout key_status = record {
  layout = layout;
  key_status = key_status;
  catalogs = RemoteData.not_asked;
}

unfoldable pub on_repo_added : BrowseModel → RepoHandle → RepositoryLayout → KeyStatus → Outcome
on_repo_added model repo layout key_status =
    ok (with_repo model repo (unloaded layout key_status), first_cmds model.repos repo)

unfoldable pub on_catalogs_requested : BrowseModel → RepoHandle → Outcome
unfolding is_pending_or_done
on_catalogs_requested model repo = if_held model repo (λ state.
    let request = model.next_request in
    if is_pending_or_done state.catalogs
    then ok (model, [])
    else ok (
      record model {
        next_request = request + 1;
        inflight = insert (catalogs_slot repo) request model.inflight;
        repos = insert repo (record state { catalogs = RemoteData.loading none }) model.repos;
      },
      BrowseCmd.load_catalogs_for repo model.epoch request ∷ [],
    ))

-- `is_stale` for the slot of a repository's catalogs.
abbrev pub is_stale_for : BrowseModel → RepoHandle → Epoch → RequestId → Bool
is_stale_for model repo epoch request =
    is_stale model.epoch model.inflight (catalogs_slot repo) epoch request

-- `dataclasses.replace(state, catalogs=...)` in `repos`.
abbrev pub with_catalogs :
    BrowseModel → RepoHandle → RepoState → RemoteData (List Catalog) → BrowseModel
with_catalogs model repo state found = with_repo model repo (record state { catalogs = found })

unfoldable pub on_catalogs_loaded :
    BrowseModel → Epoch → RequestId → RepoHandle → List Catalog → Outcome
unfolding is_stale
on_catalogs_loaded model epoch request repo found =
    if is_stale_for model repo epoch request
    then ok (model, [])
    else if_held model repo
        (λ state. ok (with_catalogs model repo state (RemoteData.success found), []))

unfoldable pub on_catalogs_load_failed :
    BrowseModel → Epoch → RequestId → RepoHandle → String → Outcome
unfolding is_stale
on_catalogs_load_failed model epoch request repo message =
    if is_stale_for model repo epoch request
    then ok (model, [])
    else if_held model repo (λ state.
      let info : FailureInfo = record { message = message; kind = FailureKind.other } in
      ok (with_catalogs model repo state (RemoteData.failure info), []))

abbrev pub with_workloads : BrowseModel → CatalogKey → RemoteData (List Workload) → BrowseModel
with_workloads model key found = record model {
  catalog_workloads = insert key found model.catalog_workloads;
}

abbrev pub with_versions : BrowseModel → WorkloadKey → RemoteData (List Version) → BrowseModel
with_versions model key found = record model {
  workload_versions = insert key found model.workload_versions;
}

abbrev pub catalog_chosen : BrowseModel → RepoHandle → Catalog → BrowseModel
catalog_chosen model repo catalog = record model {
  selected_catalog = some (record { repo = repo; catalog = catalog });
  selected_workload = none;
  reload_failure = none;
}

unfoldable pub on_catalog_selected : BrowseModel → RepoHandle → Catalog → Outcome
unfolding is_pending_or_done
on_catalog_selected model repo catalog = if_held model repo (λ _.
    let key = catalog_key repo catalog in
    let chosen = catalog_chosen model repo catalog in
    if is_pending_or_done (asked (lookup key model.catalog_workloads))
    then ok (chosen, [])
    else ok (
      with_workloads chosen key (RemoteData.loading none),
      BrowseCmd.load_workloads repo catalog false ∷ [],
    ))

abbrev pub needs_key : FailureKind → Bool
needs_key FailureKind.key_required = true
needs_key FailureKind.not_found = false
needs_key FailureKind.other = false

unfoldable pub on_workloads_load_failed : BrowseModel → CatalogKey → Catalog → FailureInfo → Outcome
on_workloads_load_failed model catalog real_catalog info = if_held model catalog.repo (λ _.
    if needs_key info.kind
    then ok (
      with_workloads model catalog RemoteData.not_asked,
      BrowseCmd.prompt_for_key catalog.repo real_catalog ∷ [],
    )
    else ok (with_workloads model catalog (RemoteData.failure info), []))

unfoldable pub on_catalogs_refresh_failed : BrowseModel → RepoHandle → String → Outcome
on_catalogs_refresh_failed model repo message = if_held model repo (λ _. ok (
  record model { selected_catalog = none; selected_workload = none; reload_failure = some message },
  [],
))

unfoldable pub on_workload_selected : BrowseModel → Workload → Outcome
unfolding is_pending_or_done
on_workload_selected model workload = elim model.selected_catalog [
  | none ↦ raise Error.assertion_error
  | some selected ↦
      let key = workload_key (key_of selected) workload in
      let chosen = record model { selected_workload = some workload } in
      if is_pending_or_done (asked (lookup key model.workload_versions))
      then ok (chosen, [])
      else ok (
        with_versions chosen key (RemoteData.loading none),
        BrowseCmd.load_versions selected.repo selected.catalog workload false ∷ [],
      )
]

unfoldable pub on_versions_load_failed : BrowseModel → WorkloadKey → String → Outcome
on_versions_load_failed model workload message = if_held model workload.catalog.repo (λ _.
    let info : FailureInfo = record { message = message; kind = FailureKind.other } in
    ok (with_versions model workload (RemoteData.failure info), []))

-- The two lists that a refresh reads again: the versions of a workload, the workloads of a catalog.
abbrev pub refresh_versions : BrowseModel → SelectedCatalog → Workload → Outcome
refresh_versions model selected workload =
    let key = workload_key (key_of selected) workload in
    let stale = asked (lookup key model.workload_versions) in
    if is_loading stale
    then ok (model, [])
    else ok (
      with_versions model key (loading_preserving stale),
      BrowseCmd.load_versions selected.repo selected.catalog workload true ∷ [],
    )

abbrev pub refresh_workloads : BrowseModel → SelectedCatalog → Outcome
refresh_workloads model selected =
    let key = key_of selected in
    let stale = asked (lookup key model.catalog_workloads) in
    if is_loading stale
    then ok (model, [])
    else ok (
      with_workloads model key (loading_preserving stale),
      BrowseCmd.load_workloads selected.repo selected.catalog true ∷ [],
    )

unfoldable pub on_refresh_requested : BrowseModel → Outcome
unfolding is_loading loading_preserving
on_refresh_requested model = elim model.selected_workload [
  | some workload ↦ elim model.selected_catalog [
    | none ↦ raise Error.assertion_error
    | some selected ↦ refresh_versions model selected workload
  ]
  | none ↦ elim model.selected_catalog [
    | none ↦ ok (model, [])
    | some selected ↦ refresh_workloads model selected
  ]
]
