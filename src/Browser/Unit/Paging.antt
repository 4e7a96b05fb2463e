-- ===== src/Browser/Unit/Paging.antt =====
-- core/unit/update.py: a folder's children over several events. Its first page is asked for once,
-- and each further page starts where the last one ended.
use mathlib.Core.Path.{subst}
use apm_repo_sdk_python.Base.{
  sym, ◌∙◌, ◌≡◌, refl, arith, Bool, true, false, ◌||◌, List, [], ◌∷◌, ◌++◌, none, some, length,
  Option-cases, Bool-cases, inl, inr,
}
use apm_repo_sdk_python.Base.Dict.{
  lookup, insert, update as update_dict, remove, lookup-insert_hit, contains-add, contains-remove,
}
use apm_repo_sdk_python.Browser.Keys.{ProviderHandle, is_stale_iff}
use apm_repo_sdk_python.Browser.Unit.Children.{
  by_ref, on_children_requested, start_children, is_loaded, load_more, on_load_more_requested,
  on_more_children_loaded, children_page_size, is_stale_for,
}
use apm_repo_sdk_python.Browser.Unit.Model.{
  UnitModel, Severity, UnitMsg, UnitCmd, LoadedLevel, unit_slot_deceq, children_slot,
  has_pending_children,
}
use apm_repo_sdk_python.Browser.Unit.Update.{update}
use apm_repo_sdk_python.Browser.Unit.Texts.{load_more_text}
use apm_repo_sdk_python.Errors.{ok-cancel, ok, raise, Error}
use apm_repo_sdk_python.Units.Node.{Node, NodeRef, node_ref_deceq}

pending-start_children :
    (m : UnitModel) (ref : NodeRef) → has_pending_children (start_children m ref) ref ≡ true
unfolding has_pending_children
pending-start_children m ref =
    ground (arith, contains-add (children_slot ref) (children_slot ref) m.pending)

-- The fetch that a page starts is the one whose result is taken.
current-start_children :
    (m : UnitModel) (ref : NodeRef)
    → is_stale_for (start_children m ref) (children_slot ref) m.epoch m.next_request ≡ false
current-start_children m ref =
    (is_stale_iff m.epoch _ (children_slot ref) m.epoch m.next_request).1 (
      refl,
      lookup-insert_hit (children_slot ref) (children_slot ref) m.next_request m.inflight refl,
    )

pub children_requested-busy :
    (m : UnitModel) (node : Node)
    → (is_loaded m node.ref || has_pending_children m node.ref) ≡ true
    → update m (UnitMsg.children_requested node) ≡ ok (m, [])
unfolding update on_children_requested
children_requested-busy m node busy = rw (busy, on_children_requested)

pub children_requested-free :
    (m : UnitModel) (node : Node) (handle : ProviderHandle)
    → (is_loaded m node.ref || has_pending_children m node.ref) ≡ false
    → m.provider ≡ some handle
    → update m (UnitMsg.children_requested node)
      ≡ ok (
        start_children m node.ref,
        UnitCmd.load_children m.epoch m.next_request handle node 0 children_page_size ∷ [],
      )
unfolding update on_children_requested
children_requested-free m node handle free held = rw (free, on_children_requested, held)

children_requested-gone :
    (m : UnitModel) (node : Node)
    → (is_loaded m node.ref || has_pending_children m node.ref) ≡ false
    → m.provider ≡ none
    → update m (UnitMsg.children_requested node) ≡ raise Error.assertion_error
unfolding update on_children_requested
children_requested-gone m node free gone = rw (free, on_children_requested, gone)

busy-start_children :
    (m : UnitModel) (ref : NodeRef)
    → (is_loaded m ref || has_pending_children (start_children m ref) ref) ≡ true
busy-start_children m ref = rw (pending-start_children m ref) (ground arith)

-- After a request for a folder's children that ended without an exception, the same request
-- changes nothing and starts no second fetch.
pub children_requested-twice :
    (m n : UnitModel) (node : Node) (cmds : List UnitCmd)
    → update m (UnitMsg.children_requested node) ≡ ok (n, cmds)
    → update n (UnitMsg.children_requested node) ≡ ok (n, [])
children_requested-twice m n node cmds e =
    elim (Bool-cases (is_loaded m node.ref || has_pending_children m node.ref)) [
      | inl busy ↦
          let same = children_requested-busy m node busy in
          subst (λ r. update r.0 (UnitMsg.children_requested node) ≡ ok (r.0, []))
            (ok-cancel (sym same ∙ e)) same
      | inr free ↦ elim (Option-cases m.provider) [
        | inl gone ↦ absurd (cc (e, children_requested-gone m node free gone))
        | inr (handle, held) ↦
            subst (λ r. update r.0 (UnitMsg.children_requested node) ≡ ok (r.0, []))
              (ok-cancel (sym (children_requested-free m node handle free held) ∙ e))
              (children_requested-busy (start_children m node.ref) node
                (busy-start_children m node.ref))
      ]
    ]

load_more-asked :
    (m : UnitModel) (node : Node) (level : LoadedLevel) (handle : ProviderHandle)
    → lookup node.ref m.loaded ≡ some level
    → level.exhausted ≡ false
    → has_pending_children m node.ref ≡ false
    → m.provider ≡ some handle
    → update m (UnitMsg.load_more_requested node)
      ≡ ok (
        start_children m node.ref,
        UnitCmd.load_children m.epoch m.next_request handle node
              (length level.children)
              children_page_size
            ∷ [],
      )
unfolding update on_load_more_requested load_more
load_more-asked m node level handle there unfinished idle held =
    rw (there, on_load_more_requested, unfinished, idle, held)

-- The model once a further page has arrived.
abbrev with_page : UnitModel → NodeRef → List Node → Bool → List Node → UnitModel
with_page m ref children exhausted more = record m {
  loaded = insert ref (record { children = children; exhausted = exhausted }) m.loaded;
  node_index = update_dict m.node_index (by_ref more);
  pending = remove (children_slot ref) m.pending;
}

idle-with_page :
    (m : UnitModel) (ref : NodeRef) (children : List Node) (exhausted : Bool) (more : List Node)
    → has_pending_children (with_page m ref children exhausted more) ref ≡ false
unfolding has_pending_children
idle-with_page m ref children exhausted more =
    ground (arith, contains-remove (children_slot ref) (children_slot ref) m.pending)

load_more-taken :
    (m : UnitModel) (node : Node) (level : LoadedLevel) (more : List Node) (exhausted : Bool)
    → lookup node.ref m.loaded ≡ some level
    → update
        (start_children m node.ref)
        (UnitMsg.more_children_loaded m.epoch m.next_request node.ref more exhausted)
      ≡ ok (
        with_page (start_children m node.ref) node.ref (level.children ++ more) exhausted more,
        UnitCmd.notify
              (load_more_text (length more) (length (level.children ++ more)))
              Severity.information
            ∷ [],
      )
unfolding update on_more_children_loaded
load_more-taken m node level more exhausted there =
    rw (current-start_children m node.ref, on_more_children_loaded, there)

-- One more page, from the request to its arrival. On a level that has more to load, while no page
-- is on its way and a provider is held, the request starts a fetch at the number of children
-- loaded so far; when that fetch's result comes next it is taken, and the level then holds the
-- old children followed by the new ones, and no page is on its way.
pub load_more-round :
    (m : UnitModel) (node : Node) (level : LoadedLevel) (handle : ProviderHandle) (more : List Node)
    (exhausted : Bool)
    → lookup node.ref m.loaded ≡ some level
    → level.exhausted ≡ false
    → has_pending_children m node.ref ≡ false
    → m.provider ≡ some handle
    → (n : UnitModel) × (p : UnitModel) × (cmds : List UnitCmd) × (update m
          (UnitMsg.load_more_requested node)
        ≡ ok (
          n,
          UnitCmd.load_children m.epoch m.next_request handle node
                (length level.children)
                children_page_size
              ∷ [],
        ))
      × (update n (UnitMsg.more_children_loaded m.epoch m.next_request node.ref more exhausted)
          ≡ ok (p, cmds))
      × (lookup node.ref p.loaded
          ≡ some (record { children = level.children ++ more; exhausted = exhausted }))
      × (has_pending_children p node.ref ≡ false)
load_more-round m node level handle more exhausted there unfinished idle held = (
  start_children m node.ref,
  with_page (start_children m node.ref) node.ref (level.children ++ more) exhausted more,
  _,
  load_more-asked m node level handle there unfinished idle held,
  load_more-taken m node level more exhausted there,
  lookup-insert_hit node.ref node.ref _ m.loaded refl,
  idle-with_page (start_children m node.ref) node.ref (level.children ++ more) exhausted more,
)
