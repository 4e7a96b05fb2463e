-- ===== src/Browser/Unit/Steps/Children.antt =====
-- The root, the children of a node and the pages that follow.
use Prim.Native.String.{String}
use native.Mathlib.Nat.{le_refl}
use apm_repo_sdk_python.Base.{
  ℕ, ◌+◌, ◌≡◌, refl, arith, Bool, false, List, [], ◌∷◌, Option, none, some, All, All-append,
  Option-cases, ◌||◌, inl, inr,
}
use apm_repo_sdk_python.Base.Dict.{lookup, contains, lookup-insert_hit}
use apm_repo_sdk_python.Browser.Keys.{Epoch, RequestId, ProviderHandle, is_stale, is_stale_iff}
use apm_repo_sdk_python.Browser.Unit.Children.{
  on_root_requested, start_goto, on_children_requested, start_children, on_children_loaded,
  on_children_load_failed, on_load_more_requested, on_more_children_loaded,
  on_more_children_load_failed, close_cmds, children_page_size, is_loaded, next_request, kept_goto,
}
use apm_repo_sdk_python.Browser.Unit.Good.{
  Good, quiet-Good, Ensures, returns, on_branch, on_held, Issued,
}
use apm_repo_sdk_python.Browser.Unit.Model.{
  UnitModel, UnitCmd, UnitSlot, unit_slot_deceq, GotoState, provider_slot, goto_slot, children_slot,
  next_offset, has_pending_children,
}
use apm_repo_sdk_python.Browser.Unit.Valid.{
  IsValid, IsFresh-insert, IsFresh-only, IsRunning-insert, IsRunning-add, IsRunning-remove,
  IsIndexed-first, IsIndexed-more,
}
use apm_repo_sdk_python.Units.Node.{Node, NodeRef, node_ref_deceq}

close_cmds-Issued : (m n : UnitModel) (p : Option ProviderHandle) → All (Issued m n) (close_cmds p)
close_cmds-Issued m n none = tt
close_cmds-Issued m n (some handle) = (tt, tt)

abbrev reset : UnitModel → UnitModel
reset m = record m {
  epoch = m.epoch + 1;
  inflight = (provider_slot, m.next_request) ∷ [];
  pending = [];
  next_request = m.next_request + 1;
  provider = none;
  root = none;
  root_error = none;
  loaded = [];
  node_index = [];
  errors = [];
  filter = none;
  selected = none;
  detail = none;
  goto = kept_goto m.provider m.goto;
  landing = none;
}

module _ (m : UnitModel) (v : IsValid m) where
  pub on_root_requested-Good :
      (invalidate force_raw : Bool) → Ensures (Good m) (on_root_requested m invalidate force_raw)
  unfolding on_root_requested lookup contains
  on_root_requested-Good invalidate force_raw = returns (record {
    valid = record {
      fresh = IsFresh-only provider_slot m.next_request;
      running = λ s c. cc;
      indexed = λ r l e. cc;
      detached = λ e. (refl, refl, refl, λ ref. ground arith, ground arith);
    };
    issued =
        All-append (Issued m (reset m)) (close_cmds m.provider)
          (UnitCmd.load_root (m.epoch + 1) m.next_request invalidate force_raw ∷ [])
          (close_cmds-Issued m (reset m) m.provider)
          ((refl, ground arith, le_refl m.next_request), tt);
    epochs = omega arith;
    requests = omega arith;
  })

  pub start_goto-Good : (goto : GotoState) → Ensures (Good m) (start_goto m goto)
  unfolding start_goto
  start_goto-Good goto = on_held ((next_request m).1) λ handle held. returns (record {
    valid = record {
      fresh = IsFresh-insert m.inflight m.next_request goto_slot v.fresh;
      running = IsRunning-insert m.pending m.inflight goto_slot m.next_request v.running;
      indexed = v.indexed;
      detached = λ e. absurd (ground arith);
    };
    issued = (
      (
        (refl, lookup-insert_hit goto_slot goto_slot m.next_request m.inflight refl, le_refl _),
        held,
      ),
      tt,
    );
    epochs = le_refl _;
    requests = omega arith;
  })

  start_children-IsValid :
      (ref : NodeRef) (handle : ProviderHandle)
      → m.provider ≡ some handle
      → IsValid (start_children m ref)
  start_children-IsValid ref handle held = record {
    fresh = IsFresh-insert m.inflight m.next_request (children_slot ref) v.fresh;
    running = IsRunning-add m.pending m.inflight (children_slot ref) m.next_request v.running;
    indexed = v.indexed;
    detached = λ e. absurd (ground arith);
  }

  -- The fetch of a page of children starts: the same for the first page and for a later one.
  fetch-Good :
      (node : Node) (offset : ℕ) (handle : ProviderHandle)
      → m.provider ≡ some handle
      → Good m
          (start_children m node.ref)
          (UnitCmd.load_children m.epoch m.next_request handle node offset children_page_size ∷ [])
  fetch-Good node offset handle held = record {
    valid = start_children-IsValid node.ref handle held;
    issued = (
      (
        (
          refl,
          lookup-insert_hit (children_slot node.ref) (children_slot node.ref) m.next_request
              m.inflight refl,
          le_refl _,
        ),
        held,
      ),
      tt,
    );
    epochs = le_refl _;
    requests = omega arith;
  }

  pub on_children_requested-Good : (node : Node) → Ensures (Good m) (on_children_requested m node)
  unfolding on_children_requested
  on_children_requested-Good node =
      on_branch (is_loaded m node.ref || has_pending_children m node.ref)
        (λ _. returns (quiet-Good m refl tt v))
        (λ _. on_held m (λ handle held. returns (fetch-Good node 0 handle held)))

  pub on_load_more_requested-Good : (node : Node) → Ensures (Good m) (on_load_more_requested m node)
  unfolding on_load_more_requested
  on_load_more_requested-Good node = elim (Option-cases (lookup node.ref m.loaded)) [
    | inl nothing ↦ rw (nothing, on_load_more_requested) (returns (quiet-Good m refl (tt, tt) v))
    | inr (level, there) ↦
        rw (there, on_load_more_requested)
          (on_branch level.exhausted (λ _. returns (quiet-Good m refl (tt, tt) v))
            (λ _.
              on_branch (has_pending_children m node.ref)
                (λ _. returns (quiet-Good m refl (tt, tt) v))
                (λ _.
                  on_held m
                    (λ handle held. returns (fetch-Good node (next_offset level) handle held)))))
  ]

  -- A result that is current answers a request in flight.
  pub current :
      (slot : UnitSlot) (e : Epoch) (r : RequestId)
      → is_stale m.epoch m.inflight slot e r ≡ false
      → lookup slot m.inflight ≡ some r
  current slot e r h = ((is_stale_iff m.epoch m.inflight slot e r).0 h).1

  -- So where children are awaited a provider is held.
  attached :
      (ref : NodeRef) {r : RequestId}
      → lookup (children_slot ref) m.inflight ≡ some r
      → m.provider ≡ none
      → ⊥
  attached ref found gone = ground (arith, (v.detached gone).3 ref)

  module _ (e : Epoch) (r : RequestId) (ref : NodeRef) where
    pub on_children_loaded-Good :
        (children : List Node) (done : Bool)
        → Ensures (Good m) (on_children_loaded m e r ref children done)
    unfolding on_children_loaded
    on_children_loaded-Good children done =
        on_branch _ (λ _. returns (quiet-Good m refl tt v))
          λ fits. returns (record {
            valid = record {
              fresh = v.fresh;
              running = IsRunning-remove m.pending m.inflight (children_slot ref) v.running;
              indexed = IsIndexed-first m.loaded m.node_index v.indexed ref children done;
              detached = λ gone. absurd (attached ref (current (children_slot ref) e r fits) gone);
            };
            issued = tt;
            epochs = le_refl _;
            requests = le_refl _;
          })

    pub on_children_load_failed-Good :
        (message : String) → Ensures (Good m) (on_children_load_failed m e r ref message)
    unfolding on_children_load_failed
    on_children_load_failed-Good message =
        on_branch _ (λ _. returns (quiet-Good m refl tt v))
          λ fits. returns (record {
            valid = record {
              fresh = v.fresh;
              running = IsRunning-remove m.pending m.inflight (children_slot ref) v.running;
              indexed = v.indexed;
              detached = λ gone. absurd (attached ref (current (children_slot ref) e r fits) gone);
            };
            issued = tt;
            epochs = le_refl _;
            requests = le_refl _;
          })

    pub on_more_children_load_failed-Good :
        (message : String) → Ensures (Good m) (on_more_children_load_failed m e r ref message)
    unfolding on_more_children_load_failed
    on_more_children_load_failed-Good message =
        on_branch _ (λ _. returns (quiet-Good m refl tt v))
          λ fits. returns (record {
            valid = record {
              fresh = v.fresh;
              running = IsRunning-remove m.pending m.inflight (children_slot ref) v.running;
              indexed = v.indexed;
              detached = λ gone. absurd (attached ref (current (children_slot ref) e r fits) gone);
            };
            issued = (tt, tt);
            epochs = le_refl _;
            requests = le_refl _;
          })

    pub on_more_children_loaded-Good :
        (more : List Node) (done : Bool)
        → Ensures (Good m) (on_more_children_loaded m e r ref more done)
    unfolding on_more_children_loaded
    on_more_children_loaded-Good more done =
        on_branch _ (λ _. returns (quiet-Good m refl tt v))
          λ fits. returns (record {
            valid = record {
              fresh = v.fresh;
              running = IsRunning-remove m.pending m.inflight (children_slot ref) v.running;
              indexed = IsIndexed-more m.loaded m.node_index v.indexed ref more done;
              detached = λ gone. absurd (attached ref (current (children_slot ref) e r fits) gone);
            };
            issued = (tt, tt);
            epochs = le_refl _;
            requests = le_refl _;
          })
