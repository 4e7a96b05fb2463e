-- ===== src/Browser/Browse/Valid.antt =====
-- core/browse/update.py: what holds of every state of the store, and the changes of a part of it
-- that keep it.
use mathlib.Core.Path.{subst}
use apm_repo_sdk_python.Base.{
  ◌+◌, ◌<◌, ◌≡◌, ◌≢◌, refl, sym, ◌∙◌, arith, true, false, List, [], map, Option, none, some, All,
  some-cancel,
}
use apm_repo_sdk_python.Base.Dict.{
  Dict, lookup, insert, lookup-insert_hit, lookup-insert_miss, lookup-insert_kept,
}
use apm_repo_sdk_python.Browser.Keys.{
  RequestId, RepoHandle, RepoHandle-discrete, CatalogKey, CatalogKey-discrete, WorkloadKey,
  WorkloadKey-discrete, repo_handle_deceq, catalog_key_deceq, workload_key_deceq,
}
use apm_repo_sdk_python.Browser.RemoteData.{RemoteData, is_loading}
use apm_repo_sdk_python.Browser.Browse.Model.{
  Workload, Version, BrowseSlot, BrowseSlot-discrete, browse_slot_deceq, catalogs_slot, catalog_key,
  workload_key, RepoState, SelectedCatalog, BrowseModel, BrowseCmd,
}
use apm_repo_sdk_python.Browser.Browse.Handlers.{Outcome, asked}
use apm_repo_sdk_python.Errors.{ok}

-- Every list kept is of a repository that is held, so is the selection, a workload is selected under
-- a catalog, numbers given out are below the next, and catalogs on their way have a number.
pub record Holds (repos : Dict RepoHandle RepoState)
    (workloads : Dict CatalogKey (RemoteData (List Workload)))
    (versions : Dict WorkloadKey (RemoteData (List Version))) (selected : Option SelectedCatalog)
    (workload : Option Workload) (inflight : Dict BrowseSlot RequestId) (next : RequestId)
    : Type 0 where
  pub held_workloads : (k : CatalogKey) → lookup k workloads ≢ none → lookup k.repo repos ≢ none
  pub held_versions :
      (k : WorkloadKey) → lookup k versions ≢ none → lookup k.catalog.repo repos ≢ none
  pub held_selected : (s : SelectedCatalog) → selected ≡ some s → lookup s.repo repos ≢ none
  pub under_catalog : workload ≢ none → selected ≢ none
  pub numbered : (s : BrowseSlot) (r : RequestId) → lookup s inflight ≡ some r → r < next
  pub awaited :
      (k : RepoHandle) (state : RepoState)
      → lookup k repos ≡ some state
      → is_loading state.catalogs ≡ true
      → lookup (catalogs_slot k) inflight ≢ none

abbrev pub IsValid : BrowseModel → Type 0
IsValid m =
    Holds m.repos m.catalog_workloads m.workload_versions m.selected_catalog m.selected_workload
      m.inflight m.next_request

-- What an event asks for, by the model before and after it: a fetch is of a list that the new model
-- shows as loading and the old one did not, of a repository that is held; the repositories that are
-- closed are those of the old model; the first repository becomes the current one.
abbrev pub IsAsked : BrowseModel → BrowseModel → BrowseCmd → Type 0
IsAsked m n (BrowseCmd.close_repos repos) = (repos ≡ map (λ p. p.0) m.repos) × (n.repos ≡ [])
IsAsked m n (BrowseCmd.set_current_repo k) = (m.repos ≡ []) × (lookup k n.repos ≢ none)
IsAsked m n (BrowseCmd.load_catalogs_for k epoch request) =
    (n.epoch ≡ epoch)
    × (lookup (catalogs_slot k) n.inflight ≡ some request)
    × (old : RepoState) × (lookup k m.repos ≡ some old)
    × (is_loading old.catalogs ≡ false)
    × (new : RepoState) × (lookup k n.repos ≡ some new)
    × (is_loading new.catalogs ≡ true)
IsAsked m n (BrowseCmd.load_workloads k c _) =
    (is_loading (asked (lookup (catalog_key k c) m.catalog_workloads)) ≡ false)
    × (is_loading (asked (lookup (catalog_key k c) n.catalog_workloads)) ≡ true)
    × (lookup k n.repos ≢ none)
IsAsked m n (BrowseCmd.prompt_for_key k _) = lookup k n.repos ≢ none
IsAsked m n (BrowseCmd.reload_catalogs_after_key_verified _ _) = ⊥
IsAsked m n (BrowseCmd.load_versions k c w _) =
    (is_loading (asked (lookup (workload_key (catalog_key k c) w) m.workload_versions)) ≡ false)
    × (is_loading (asked (lookup (workload_key (catalog_key k c) w) n.workload_versions)) ≡ true)
    × (lookup k n.repos ≢ none)
IsAsked m n (BrowseCmd.notify _ _ _) = ⊥

-- No exception, a valid model, and nothing is asked for but as above.
abbrev pub Answered : BrowseModel → Outcome → Type 0
Answered m o =
    (r : BrowseModel × List BrowseCmd) × (o ≡ ok r) × IsValid r.0 × All (IsAsked m r.0) r.1

pub some_held {ℓ} : {A : Type ℓ} (o : Option A) (a : A) → o ≡ some a → o ≢ none
some_held o a e f = cc

module _ (m : BrowseModel) (v : IsValid m) where
  -- The state of a repository changes.
  pub IsValid-repo :
      (k : RepoHandle) (state : RepoState)
      → (is_loading state.catalogs ≡ true → lookup (catalogs_slot k) m.inflight ≢ none)
      → IsValid (record m { repos = insert k state m.repos })
  IsValid-repo k state loads = record {
    held_workloads = λ j h. lookup-insert_kept k j.repo state m.repos (v.held_workloads j h);
    held_versions = λ j h. lookup-insert_kept k j.catalog.repo state m.repos (v.held_versions j h);
    held_selected = λ s h. lookup-insert_kept k s.repo state m.repos (v.held_selected s h);
    under_catalog = v.under_catalog;
    numbered = v.numbered;
    awaited = λ j other e l. elim (RepoHandle-discrete k j) [
      | yes p ↦
          subst (λ x. lookup (catalogs_slot x) m.inflight ≢ none) p
            (loads (
              subst (λ (x : RepoState). is_loading x.catalogs ≡ true)
                (some-cancel (sym e ∙ lookup-insert_hit k j state m.repos p)) l))
      | no p ↦ v.awaited j other (sym (lookup-insert_miss k j state m.repos p) ∙ e) l
    ];
  }

  pub IsValid-workloads :
      (k : CatalogKey) (found : RemoteData (List Workload))
      → lookup k.repo m.repos ≢ none
      → IsValid (record m { catalog_workloads = insert k found m.catalog_workloads })
  IsValid-workloads k found held = record {
    held_workloads = λ j h. elim (CatalogKey-discrete k j) [
      | yes p ↦ subst (λ (x : CatalogKey). lookup x.repo m.repos ≢ none) p held
      | no p ↦ v.held_workloads j (λ e. h (lookup-insert_miss k j found m.catalog_workloads p ∙ e))
    ];
    held_versions = v.held_versions;
    held_selected = v.held_selected;
    under_catalog = v.under_catalog;
    numbered = v.numbered;
    awaited = v.awaited;
  }

  pub IsValid-versions :
      (k : WorkloadKey) (found : RemoteData (List Version))
      → lookup k.catalog.repo m.repos ≢ none
      → IsValid (record m { workload_versions = insert k found m.workload_versions })
  IsValid-versions k found held = record {
    held_workloads = v.held_workloads;
    held_versions = λ j h. elim (WorkloadKey-discrete k j) [
      | yes p ↦ subst (λ (x : WorkloadKey). lookup x.catalog.repo m.repos ≢ none) p held
      | no p ↦ v.held_versions j (λ e. h (lookup-insert_miss k j found m.workload_versions p ∙ e))
    ];
    held_selected = v.held_selected;
    under_catalog = v.under_catalog;
    numbered = v.numbered;
    awaited = v.awaited;
  }

  -- A catalog is selected, or none.
  pub IsValid-selected :
      (selected : Option SelectedCatalog)
      → ((s : SelectedCatalog) → selected ≡ some s → lookup s.repo m.repos ≢ none)
      → IsValid (record m { selected_catalog = selected; selected_workload = none })
  IsValid-selected selected held = record {
    held_workloads = v.held_workloads;
    held_versions = v.held_versions;
    held_selected = held;
    under_catalog = λ h. absurd (h refl);
    numbered = v.numbered;
    awaited = v.awaited;
  }

  pub IsValid-chosen :
      (workload : Workload)
      → m.selected_catalog ≢ none
      → IsValid (record m { selected_workload = some workload })
  IsValid-chosen workload held = record {
    held_workloads = v.held_workloads;
    held_versions = v.held_versions;
    held_selected = v.held_selected;
    under_catalog = λ _. held;
    numbered = v.numbered;
    awaited = v.awaited;
  }

  -- A request number is given out for a repository's catalogs.
  pub IsValid-numbered :
      (k : RepoHandle)
      → IsValid (record m {
        next_request = m.next_request + 1;
        inflight = insert (catalogs_slot k) m.next_request m.inflight;
      })
  IsValid-numbered k = record {
    held_workloads = v.held_workloads;
    held_versions = v.held_versions;
    held_selected = v.held_selected;
    under_catalog = v.under_catalog;
    numbered = λ s r e. elim (BrowseSlot-discrete (catalogs_slot k) s) [
      | yes p ↦ omega (
        arith,
        some-cancel (sym e ∙ lookup-insert_hit (catalogs_slot k) s m.next_request m.inflight p),
      )
      | no p ↦ omega (
        arith,
        v.numbered s r
            (sym (lookup-insert_miss (catalogs_slot k) s m.next_request m.inflight p) ∙ e),
      )
    ];
    awaited = λ j state e l.
        lookup-insert_kept (catalogs_slot k) (catalogs_slot j) m.next_request m.inflight
          (v.awaited j state e l);
  }
