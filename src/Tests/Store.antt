-- ===== src/Tests/Store.antt =====
-- Runs of the store of `UnitScreen`: browser/core/unit.
use apm_repo_sdk_python.Base.{
  ◌||◌, if_pos, ◌≡◌, refl, arith, true, false, List, [], ◌∷◌, none, some, inl, nat_deceq,
}
use apm_repo_sdk_python.Base.Text.{code_points}
use apm_repo_sdk_python.Base.Dict.{lookup, contains}
use apm_repo_sdk_python.Browser.Keys.{ProviderHandle}
use apm_repo_sdk_python.Browser.Unit.Children.{
  on_root_requested, children_page_size, is_loaded, start_children,
}
use apm_repo_sdk_python.Browser.Unit.Good.{Good}
use apm_repo_sdk_python.Browser.Unit.Landed.{Lands, goto_resolved-Lands}
use apm_repo_sdk_python.Browser.Unit.Model.{
  UnitModel, goto_slot, UnitMsg, UnitCmd, LoadedLevel, initial, provider_slot, unit_slot_deceq,
  has_pending_children,
}
use apm_repo_sdk_python.Browser.Unit.Paging.{
  children_requested-free, children_requested-twice, load_more-round,
}
use apm_repo_sdk_python.Browser.Unit.Run.{Run, update-before_reload}
use apm_repo_sdk_python.Browser.Unit.Stale.{update-OutOfDate}
use apm_repo_sdk_python.Browser.Unit.Steps.{initial-IsValid, update-Good}
use apm_repo_sdk_python.Browser.Unit.Raises.{Ends}
use apm_repo_sdk_python.Browser.Unit.Total.{update-Ends}
use apm_repo_sdk_python.Browser.Unit.Update.{update}
use apm_repo_sdk_python.Browser.Unit.Valid.{IsValid, IsFresh-only}
use apm_repo_sdk_python.Errors.{ok, Error}
use apm_repo_sdk_python.Units.Node.{RefKind, FileState, NodeRole, Node, node_ref_deceq}

abbrev a_root : Node
a_root = record {
  ref = record { repo_path = code_points "repo"; segments = []; kind = RefKind.canonical };
  name = "repo";
  is_leaf = false;
  kind = none;
  size = none;
  mtime = none;
  file_state = FileState.normal;
  leaf_kind = none;
  diagnostic = none;
  role = NodeRole.ordinary;
  degraded = none;
  columns = record {
    sender = none;
    email = none;
    event_start = none;
    event_end = none;
    recurrence = none;
  };
  export_name = none;
}

abbrev a_handle : ProviderHandle
a_handle = record { id = 7 }

-- The root is asked for.
abbrev waiting : UnitModel
waiting = record initial { epoch = 1; inflight = (provider_slot, 1) ∷ []; next_request = 2 }

asked :
    update initial (UnitMsg.root_requested false false)
    ≡ ok (waiting, UnitCmd.load_root 1 1 false false ∷ [])
unfolding update on_root_requested
asked = refl

update-Good_example : Good initial waiting (UnitCmd.load_root 1 1 false false ∷ [])
update-Good_example = update-Good initial (UnitMsg.root_requested false false) initial-IsValid asked

-- The root's children are asked for while no provider is held.
update-Ends_example :
    Ends (some Error.assertion_error) (update initial (UnitMsg.children_requested a_root))
update-Ends_example = update-Ends initial (UnitMsg.children_requested a_root) initial-IsValid

-- A root of the epoch before arrives.
update-OutOfDate_example :
    update waiting (UnitMsg.root_loaded 0 1 a_handle a_root)
    ≡ ok (waiting, UnitCmd.close_provider a_handle ∷ [])
update-OutOfDate_example =
    update-OutOfDate waiting (UnitMsg.root_loaded 0 1 a_handle a_root) (inl (λ p. omega (arith, p)))

abbrev verbose_waiting : UnitModel
verbose_waiting = record waiting { verbose = true }

verbosely : update waiting (UnitMsg.verbose_set true) ≡ ok (verbose_waiting, [])
unfolding update
verbosely = refl

verbose_waiting-Run : Run waiting verbose_waiting
verbose_waiting-Run = Run.step (UnitMsg.verbose_set true) [] verbosely Run.done

update-before_reload_example :
    update verbose_waiting (UnitMsg.root_loaded 0 1 a_handle a_root)
    ≡ ok (verbose_waiting, UnitCmd.close_provider a_handle ∷ [])
update-before_reload_example =
    update-before_reload initial waiting (UnitCmd.load_root 1 1 false false ∷ []) false false
      (UnitMsg.root_loaded 0 1 a_handle a_root) provider_slot 0 1 initial-IsValid asked
      verbose_waiting-Run refl (omega arith)

-- The root is there, with one page of children.
abbrev a_level : LoadedLevel
a_level = record { children = a_root ∷ []; exhausted = false }

abbrev opened : UnitModel
opened = record waiting {
  provider = some a_handle;
  root = some a_root;
  loaded = (a_root.ref, a_level) ∷ [];
  node_index = (a_root.ref, a_root) ∷ [];
}

there : lookup a_root.ref opened.loaded ≡ some a_level
unfolding lookup
there = if_pos (node_ref_deceq.eq? a_root.ref a_root.ref) refl (some a_level) none

idle : has_pending_children opened a_root.ref ≡ false
unfolding has_pending_children contains
idle = refl

load_more-round_example :
    (n : UnitModel) × (p : UnitModel) × (cmds : List UnitCmd) × (update opened
        (UnitMsg.load_more_requested a_root)
      ≡ ok (n, UnitCmd.load_children 1 2 a_handle a_root 1 children_page_size ∷ []))
    × (update n (UnitMsg.more_children_loaded 1 2 a_root.ref (a_root ∷ a_root ∷ []) true)
        ≡ ok (p, cmds))
    × (lookup a_root.ref p.loaded
        ≡ some (record { children = a_root ∷ a_root ∷ a_root ∷ []; exhausted = true }))
    × (has_pending_children p a_root.ref ≡ false)
load_more-round_example =
    load_more-round opened a_root a_level a_handle (a_root ∷ a_root ∷ []) true there refl idle refl

-- The root is there, and its children are not asked for yet.
abbrev rooted : UnitModel
rooted = record initial { epoch = 1; provider = some a_handle; root = some a_root }

unasked : (is_loaded rooted a_root.ref || has_pending_children rooted a_root.ref) ≡ false
unfolding has_pending_children contains lookup
unasked = refl

asked_once :
    update rooted (UnitMsg.children_requested a_root)
    ≡ ok (
      start_children rooted a_root.ref,
      UnitCmd.load_children 1 1 a_handle a_root 0 children_page_size ∷ [],
    )
asked_once = children_requested-free rooted a_root a_handle unasked refl

children_requested-twice_example :
    update (start_children rooted a_root.ref) (UnitMsg.children_requested a_root)
    ≡ ok (start_children rooted a_root.ref, [])
children_requested-twice_example =
    children_requested-twice rooted (start_children rooted a_root.ref) a_root
      (UnitCmd.load_children 1 1 a_handle a_root 0 children_page_size ∷ []) asked_once

-- A goto that is being resolved, to a leaf below the root.
abbrev a_leaf : Node
a_leaf = record a_root {
  ref = record {
    repo_path = code_points "repo";
    segments = code_points "mail" ∷ [];
    kind = RefKind.canonical;
  };
  is_leaf = true;
}

abbrev going : UnitModel
going = record initial {
  epoch = 1;
  inflight = (goto_slot, 4) ∷ [];
  next_request = 5;
  provider = some a_handle;
  root = some a_root;
  goto = some (record { target = a_leaf.ref; root_expand_skipped = true });
}

awaited : lookup goto_slot going.inflight ≡ some 4
unfolding lookup
awaited = if_pos (unit_slot_deceq.eq? goto_slot goto_slot) refl (some 4) none

going-IsValid : IsValid going
unfolding lookup contains
going-IsValid = record {
  fresh = IsFresh-only goto_slot 4;
  running = λ s c. cc;
  indexed = λ r l e. cc;
  detached = λ e. cc;
}

goto_resolved-Lands_example :
    (n : UnitModel) × (cmds : List UnitCmd) × (update going
        (UnitMsg.goto_resolved 1 4 (a_root ∷ a_leaf ∷ []) ((a_leaf ∷ []) ∷ []))
      ≡ ok (n, cmds))
    × Lands (a_root ∷ a_leaf ∷ []) 4 n
goto_resolved-Lands_example =
    goto_resolved-Lands going 4 (a_root ∷ a_leaf ∷ []) ((a_leaf ∷ []) ∷ []) going-IsValid awaited
      (λ e. cc)
