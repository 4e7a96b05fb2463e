-- ===== src/Browser/Browse/Asked.antt =====
-- core/browse/update.py: what a handler asks for, and lemmas on its branches.
use apm_repo_sdk_python.Base.{
  ◌≡◌, ◌≢◌, refl, sym, ap, map, Bool, true, false, List, [], ◌∷◌, none, All, if◌then◌else◌,
}
use apm_repo_sdk_python.Base.Dict.{Dict, lookup, insert, lookup-insert_hit}
use apm_repo_sdk_python.Browser.Keys.{
  RepoHandle, CatalogKey, WorkloadKey, repo_handle_deceq, catalog_key_deceq, workload_key_deceq,
}
use apm_repo_sdk_python.Browser.RemoteData.{
  RemoteData, is_loading, is_pending_or_done, loading_preserving,
}
use apm_repo_sdk_python.Browser.Browse.Model.{
  Workload, Version, browse_slot_deceq, RepoState, BrowseModel, BrowseCmd,
}
use apm_repo_sdk_python.Browser.Browse.Handlers.{Outcome, asked, close_cmds, first_cmds}
use apm_repo_sdk_python.Browser.Browse.Valid.{IsValid, IsAsked, Answered}
use apm_repo_sdk_python.Errors.{ok}

pub branch-Answered :
    (m : BrowseModel) (b : Bool) (o p : Outcome)
    → (b ≡ true → Answered m o)
    → (b ≡ false → Answered m p)
    → Answered m (if b then o else p)
branch-Answered m true o p h k = h refl
branch-Answered m false o p h k = k refl

pub not_asked_loads : (T : Type 0) → is_loading {T = T} RemoteData.not_asked ≡ true → ⊥
unfolding is_loading
not_asked_loads T e = cc

pub differ : true ≡ false → ⊥
differ p = cc

pub preserving_loads :
    {T : Type 0} (data' : RemoteData T) → is_loading (loading_preserving data') ≡ true
unfolding is_loading loading_preserving
preserving_loads RemoteData.not_asked = refl
preserving_loads (RemoteData.loading _) = refl
preserving_loads (RemoteData.success _) = refl
preserving_loads (RemoteData.failure _) = refl

-- A list that is not loaded and not on its way is not on its way.
pub not_loading :
    {T : Type 0} (data' : RemoteData T)
    → is_pending_or_done data' ≡ false
    → is_loading data' ≡ false
unfolding is_loading is_pending_or_done
not_loading RemoteData.not_asked e = refl
not_loading (RemoteData.loading _) e = absurd (differ e)
not_loading (RemoteData.success _) e = refl
not_loading (RemoteData.failure _) e = refl

pub answer :
    (m n : BrowseModel) (cmds : List BrowseCmd)
    → IsValid n
    → All (IsAsked m n) cmds
    → Answered m (ok (n, cmds))
answer m n cmds v a = ((n, cmds), refl, v, a)

pub close_cmds-IsAsked :
    (m n : BrowseModel) (repos : Dict RepoHandle RepoState)
    → repos ≡ m.repos
    → n.repos ≡ []
    → All (IsAsked m n) (close_cmds repos)
close_cmds-IsAsked m n [] e h = tt
close_cmds-IsAsked m n (_ ∷ _) e h = ((ap (map (λ p. p.0)) e, h), tt)

pub first_cmds-IsAsked :
    (m n : BrowseModel) (repos : Dict RepoHandle RepoState) (k : RepoHandle)
    → repos ≡ m.repos
    → lookup k n.repos ≢ none
    → All (IsAsked m n) (first_cmds repos k)
first_cmds-IsAsked m n [] k e h = ((sym e, h), tt)
first_cmds-IsAsked m n (_ ∷ _) k e h = tt

pub workloads_asked :
    (k : CatalogKey) (found : RemoteData (List Workload))
    (d : Dict CatalogKey (RemoteData (List Workload)))
    → is_loading found ≡ true
    → is_loading (asked (lookup k (insert k found d))) ≡ true
workloads_asked k found d e = rw (lookup-insert_hit k k found d refl) e

pub versions_asked :
    (k : WorkloadKey) (found : RemoteData (List Version))
    (d : Dict WorkloadKey (RemoteData (List Version)))
    → is_loading found ≡ true
    → is_loading (asked (lookup k (insert k found d))) ≡ true
versions_asked k found d e = rw (lookup-insert_hit k k found d refl) e

pub loads_none : (T : Type 0) → is_loading {T = T} (RemoteData.loading none) ≡ true
unfolding is_loading
loads_none T = refl

pub repo_absent : (k : RepoHandle) → lookup {V = RepoState} k [] ≡ none
unfolding lookup
repo_absent k = refl

pub catalog_absent : (k : CatalogKey) → lookup {V = RemoteData (List Workload)} k [] ≡ none
unfolding lookup
catalog_absent k = refl

pub version_absent : (k : WorkloadKey) → lookup {V = RemoteData (List Version)} k [] ≡ none
unfolding lookup
version_absent k = refl
