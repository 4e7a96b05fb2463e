-- ===== src/Browser/Browse/Model.antt =====
-- core/browse/model.py, msg.py and cmd.py: the state of `BrowseScreen`, the events that its store
-- handles and the effects that it asks for. The objects of the SDK that the model holds are known by
-- their identity, with the ids that the store reads; what it never looks at is a number.
use Prim.Native.String.{String}
use apm_repo_sdk_python.Base.{ℕ, Bool, false, List, [], Option, none, some, DecEq, ℕ_discrete}
use apm_repo_sdk_python.Base.Dict.{Dict}
use apm_repo_sdk_python.Base.Text.{Text}
use apm_repo_sdk_python.Browser.Keys.{Epoch, RequestId, RepoHandle, Slot, CatalogKey, WorkloadKey}
use apm_repo_sdk_python.Browser.RemoteData.{FailureInfo, RemoteData}
use apm_repo_sdk_python.Browser.Unit.Model.{Severity}

-- `Repository.layout`, a version, and the parent of a filtered level: never looked into here.
abbrev pub RepositoryLayout : Type 0
RepositoryLayout = ℕ

abbrev pub Version : Type 0
Version = ℕ

abbrev pub ParentKey : Type 0
ParentKey = ℕ

pub data KeyStatus : Type 0 where
  no_key_provided not_encrypted verified invalid : KeyStatus

pub record Catalog : Type 0 where
  pub identity : ℕ
  pub catalog_id : Text

pub record Workload : Type 0 where
  pub identity : ℕ
  pub workload_uid : Text

pub data FilterTree : Type 0 where
  catalogs workloads : FilterTree

pub data BrowseSlotKind : Type 0 where
  catalogs_kind : BrowseSlotKind

abbrev pub BrowseSlot : Type 0
BrowseSlot = Slot BrowseSlotKind RepoHandle

unfoldable pub BrowseSlot-discrete : Discrete BrowseSlot
BrowseSlot-discrete = hlevel ℕ_discrete

instance abbrev pub browse_slot_deceq : DecEq BrowseSlot
unfolding BrowseSlot-discrete
browse_slot_deceq = record { eq? = BrowseSlot-discrete }

abbrev pub catalogs_slot : RepoHandle → BrowseSlot
catalogs_slot repo = record { kind = BrowseSlotKind.catalogs_kind; key = some repo }

abbrev pub catalog_key : RepoHandle → Catalog → CatalogKey
catalog_key repo catalog = record { repo = repo; catalog_id = catalog.catalog_id }

abbrev pub workload_key : CatalogKey → Workload → WorkloadKey
workload_key catalog workload = record { catalog = catalog; workload_uid = workload.workload_uid }

pub record RepoState : Type 0 where
  pub layout : RepositoryLayout
  pub key_status : KeyStatus
  pub catalogs : RemoteData (List Catalog)

pub record SelectedCatalog : Type 0 where
  pub repo : RepoHandle
  pub catalog : Catalog

-- `SelectedCatalog.key`.
abbrev pub key_of : SelectedCatalog → CatalogKey
key_of selected = catalog_key selected.repo selected.catalog

pub record TreeFilterState : Type 0 where
  pub tree : FilterTree
  pub parent_key : ParentKey
  pub text : String

pub record VersionFilterState : Type 0 where
  pub text : String

pub record BrowseModel : Type 0 where
  pub epoch : Epoch
  pub inflight : Dict BrowseSlot RequestId
  pub next_request : RequestId
  pub scan_path : String
  pub repos : Dict RepoHandle RepoState
  pub catalog_workloads : Dict CatalogKey (RemoteData (List Workload))
  pub workload_versions : Dict WorkloadKey (RemoteData (List Version))
  pub selected_catalog : Option SelectedCatalog
  pub selected_workload : Option Workload
  pub reload_failure : Option String
  pub tree_filter : Option TreeFilterState
  pub version_filter : Option VersionFilterState
  pub verbose : Bool

-- The defaults of the fields.
abbrev pub initial : BrowseModel
initial = record {
  epoch = 0;
  inflight = [];
  next_request = 1;
  scan_path = "";
  repos = [];
  catalog_workloads = [];
  workload_versions = [];
  selected_catalog = none;
  selected_workload = none;
  reload_failure = none;
  tree_filter = none;
  version_filter = none;
  verbose = false;
}

pub data BrowseMsg : Type 0 where
  rescan_started : String → BrowseMsg
  repo_added : RepoHandle → RepositoryLayout → KeyStatus → BrowseMsg
  repo_selected : RepoHandle → BrowseMsg
  catalogs_requested : RepoHandle → BrowseMsg
  catalogs_loaded : Epoch → RequestId → RepoHandle → List Catalog → BrowseMsg
  catalogs_load_failed : Epoch → RequestId → RepoHandle → String → BrowseMsg
  catalog_selected : RepoHandle → Catalog → BrowseMsg
  workloads_loaded : CatalogKey → List Workload → BrowseMsg
  workloads_load_failed : CatalogKey → Catalog → FailureInfo → BrowseMsg
  repo_key_status_refreshed : RepoHandle → KeyStatus → BrowseMsg
  key_verified : RepoHandle → Text → BrowseMsg
  catalogs_refreshed : RepoHandle → List Catalog → BrowseMsg
  catalogs_refresh_failed : RepoHandle → String → BrowseMsg
  workload_selected : Workload → BrowseMsg
  versions_loaded : WorkloadKey → List Version → BrowseMsg
  versions_load_failed : WorkloadKey → String → BrowseMsg
  refresh_requested : BrowseMsg
  tree_filter_opened : FilterTree → ParentKey → BrowseMsg
  tree_filter_text_changed : String → BrowseMsg
  tree_filter_closed : BrowseMsg
  version_filter_opened : BrowseMsg
  version_filter_text_changed : String → BrowseMsg
  version_filter_closed : BrowseMsg
  verbose_set : Bool → BrowseMsg

pub data BrowseCmd : Type 0 where
  close_repos : List RepoHandle → BrowseCmd
  set_current_repo : RepoHandle → BrowseCmd
  load_catalogs_for : RepoHandle → Epoch → RequestId → BrowseCmd
  load_workloads : RepoHandle → Catalog → Bool → BrowseCmd
  prompt_for_key : RepoHandle → Catalog → BrowseCmd
  reload_catalogs_after_key_verified : RepoHandle → Text → BrowseCmd
  load_versions : RepoHandle → Catalog → Workload → Bool → BrowseCmd
  notify : String → Severity → Option String → BrowseCmd
