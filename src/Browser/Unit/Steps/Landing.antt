-- ===== src/Browser/Unit/Steps/Landing.antt =====
-- Where a goto lands: the levels that it loaded, the folder selected, the target's detail.
use native.Mathlib.Nat.{le_trans}
use apm_repo_sdk_python.Base.{
  ◌≤◌, ◌≡◌, refl, arith, List, [], ◌∷◌, ◌++◌, Option, some, All, All-append, ◌||◌, map,
}
use apm_repo_sdk_python.Base.Dict.{Dict, lookup, update as update_dict}
use apm_repo_sdk_python.Browser.Keys.{Epoch, RequestId}
use apm_repo_sdk_python.Browser.Unit.Children.{
  on_children_requested, is_loaded, is_stale_for, Outcome,
}
use apm_repo_sdk_python.Browser.Unit.Good.{
  Good, quiet-Good, Ensures, Ensures-map, Ensures-both, Ensures-bind, returns, raises, on_branch,
  on_held, on_option, Issued, IsValid-core,
}
use apm_repo_sdk_python.Browser.Unit.Goto.{
  select_folder, on_detail_requested, with_steps, land, on_goto_resolved, chain_end, zip_steps,
  landing_of,
}
use apm_repo_sdk_python.Browser.Unit.Model.{
  UnitModel, UnitCmd, UnitSlot, unit_slot_deceq, children_slot, goto_slot, has_pending_children,
}
use apm_repo_sdk_python.Browser.Unit.Steps.Children.{on_children_requested-Good, current}
use apm_repo_sdk_python.Browser.Unit.Steps.Goto.{on_detail_requested-Good, on_detail_requested_kept}
use apm_repo_sdk_python.Browser.Unit.Valid.{
  IsValid, IsFresh-without, IsRunning-minus, IsIndexed-steps,
}
use apm_repo_sdk_python.Errors.{ok}
use apm_repo_sdk_python.Units.Node.{Node, NodeRef, node_ref_deceq, NodeRole}

abbrev OnlyChildren : UnitCmd → Type 0
OnlyChildren (UnitCmd.load_children e r handle node offset limit) = Unit
OnlyChildren _ = ⊥

on_children_requested-OnlyChildren :
    (m : UnitModel) (node : Node)
    → Ensures (λ n cmds. All OnlyChildren cmds) (on_children_requested m node)
unfolding on_children_requested
on_children_requested-OnlyChildren m node =
    on_branch (is_loaded m node.ref || has_pending_children m node.ref) (λ _. returns tt)
      (λ _. on_held m (λ handle held. returns (tt, tt)))

on_role :
    {P : UnitModel → List UnitCmd → Type 0} (role : NodeRole) {x y z : Outcome}
    → Ensures P x
    → Ensures P y
    → Ensures P z
    → Ensures P (elim role as (λ r. Outcome) [
      | NodeRole.list_overview ↦ x
      | NodeRole.flat_category ↦ y
      | NodeRole.ordinary ↦ z
    ])
on_role NodeRole.list_overview h k l = h
on_role NodeRole.flat_category h k l = k
on_role NodeRole.ordinary h k l = l

pub select_folder-Good :
    (m : UnitModel) (v : IsValid m) (folder : Node)
    → Ensures (λ n cmds. Good m n cmds × All OnlyChildren cmds) (select_folder m folder)
unfolding select_folder
select_folder-Good m v folder =
    on_role folder.role (returns (quiet-Good m refl tt v, tt))
      (Ensures-map
        (λ n cmds g. (
          record {
            valid = g.0.valid;
            issued = g.0.issued;
            epochs = g.0.epochs;
            requests = g.0.requests;
          },
          g.1,
        ))
        (Ensures-both
          (on_children_requested-Good (selected m folder) (IsValid-core m refl v) folder)
          (on_children_requested-OnlyChildren (selected m folder) folder)))
      (returns (quiet-Good m refl tt v, tt))
  where
    selected : UnitModel → Node → UnitModel
    selected m folder = record m { selected = some folder.ref }

-- A fetch of children is still awaited after the detail pane has made its own request.
kept-Issued :
    (m n : UnitModel) (node : Node) (cmds : List UnitCmd)
    → All (Issued m n) cmds
    → All OnlyChildren cmds
    → All (Issued m (on_detail_requested n node).0) cmds
kept-Issued m n node [] h k = tt
kept-Issued m n node (UnitCmd.load_children e r handle child offset limit ∷ cmds) h k = (
  ground (arith, on_detail_requested_kept n node child.ref, h.0),
  kept-Issued m n node cmds h.1 k.1,
)
kept-Issued m n node (UnitCmd.load_root e r i f ∷ cmds) h k = absurd k.0
kept-Issued m n node (UnitCmd.close_provider p ∷ cmds) h k = absurd k.0
kept-Issued m n node (UnitCmd.load_preview e r p c l ∷ cmds) h k = absurd k.0
kept-Issued m n node (UnitCmd.load_list_overview e r p c i l x ∷ cmds) h k = absurd k.0
kept-Issued m n node (UnitCmd.resolve_goto e r p t ∷ cmds) h k = absurd k.0
kept-Issued m n node (UnitCmd.open_unit e r p c u ∷ cmds) h k = absurd k.0
kept-Issued m n node (UnitCmd.show_unit u p ∷ cmds) h k = absurd k.0
kept-Issued m n node (UnitCmd.cancel_detail_fetch ∷ cmds) h k = absurd k.0
kept-Issued m n node (UnitCmd.notify t s ∷ cmds) h k = absurd k.0

-- A number not given out by a later model was not given out by an earlier one.
older :
    (m n o : UnitModel) (cmd : UnitCmd)
    → m.next_request ≤ n.next_request
    → Issued n o cmd
    → Issued m o cmd
older m n o (UnitCmd.load_root e r i f) le h = (h.0, h.1, le_trans le h.2)
older m n o (UnitCmd.close_provider p) le h = tt
older m n o (UnitCmd.load_children e r p c x l) le h = ((h.0.0, h.0.1, le_trans le h.0.2), h.1)
older m n o (UnitCmd.load_preview e r p c l) le h = ((h.0.0, h.0.1, le_trans le h.0.2), h.1)
older m n o (UnitCmd.load_list_overview e r p c i l x) le h =
    ((h.0.0, h.0.1, le_trans le h.0.2), h.1)
older m n o (UnitCmd.resolve_goto e r p t) le h = ((h.0.0, h.0.1, le_trans le h.0.2), h.1)
older m n o (UnitCmd.open_unit e r p c u) le h = ((h.0.0, h.0.1, le_trans le h.0.2), h.1)
older m n o (UnitCmd.show_unit u p) le h = tt
older m n o UnitCmd.cancel_detail_fetch le h = tt
older m n o (UnitCmd.notify t s) le h = tt

older-All :
    (m n o : UnitModel) (cmds : List UnitCmd)
    → m.next_request ≤ n.next_request
    → All (Issued n o) cmds
    → All (Issued m o) cmds
older-All m n o [] le h = tt
older-All m n o (cmd ∷ cmds) le h = (older m n o cmd le h.0, older-All m n o cmds le h.1)

then_detail :
    (m n : UnitModel) (cmds : List UnitCmd) (target : Node)
    → Good m n cmds
    → All OnlyChildren cmds
    → Good m (on_detail_requested n target).0 (cmds ++ (on_detail_requested n target).1)
then_detail m n cmds target g only =
    let d = on_detail_requested-Good n g.valid target in
    record {
      valid = d.valid;
      issued =
          All-append (Issued m (on_detail_requested n target).0) cmds
            (on_detail_requested n target).1 (kept-Issued m n target cmds g.issued only)
            (older-All m n (on_detail_requested n target).0 (on_detail_requested n target).1
              g.requests d.issued);
      epochs = le_trans g.epochs d.epochs;
      requests = le_trans g.requests d.requests;
    }

pub land-Good :
    (m : UnitModel) (v : IsValid m) (request : RequestId) (target : Node) (parent : Option Node)
    → Ensures (Good m) (land m request target parent)
unfolding land
land-Good m v request target parent =
    let landed : UnitModel = record m { landing = some (landing_of request target parent).1 } in
    Ensures-bind
      (λ r. ok ((on_detail_requested r.0 target).0, r.1 ++ (on_detail_requested r.0 target).1))
      (select_folder-Good landed (IsValid-core m refl v) (landing_of request target parent).0)
      λ n cmds g. returns (record {
        valid = (then_detail landed n cmds target g.0 g.1).valid;
        issued = (then_detail landed n cmds target g.0 g.1).issued;
        epochs = (then_detail landed n cmds target g.0 g.1).epochs;
        requests = (then_detail landed n cmds target g.0 g.1).requests;
      })

with_steps-IsValid :
    (m : UnitModel) (v : IsValid m) (steps : Dict NodeRef (List Node)) {r : RequestId}
    → lookup goto_slot m.inflight ≡ some r
    → IsValid (with_steps m steps)
unfolding with_steps
with_steps-IsValid m v steps found =
    let slots : List UnitSlot = map (λ step. children_slot step.0) steps in
    record {
      fresh = IsFresh-without m.inflight m.next_request slots v.fresh;
      running = IsRunning-minus m.pending m.inflight slots v.running;
      indexed = IsIndexed-steps m.loaded m.node_index v.indexed steps;
      detached = λ gone. absurd (ground (arith, (v.detached gone).4));
    }

pub on_goto_resolved-Good :
    (m : UnitModel) (v : IsValid m) (e : Epoch) (r : RequestId) (chain : List Node)
    (children_by_step : List (List Node))
    → Ensures (Good m) (on_goto_resolved m e r chain children_by_step)
unfolding on_goto_resolved
on_goto_resolved-Good m v e r chain children_by_step =
    on_branch (is_stale_for m goto_slot e r) (λ _. returns (quiet-Good m refl tt v))
      λ fits.
        on_option (chain_end chain) (λ _. raises)
          λ ends _.
            let steps : Dict NodeRef (List Node) =
              update_dict [] (zip_steps chain children_by_step) in
            Ensures-map (λ n cmds g. from_steps steps n cmds g)
              (land-Good (with_steps m steps)
                (with_steps-IsValid m v steps (current m v goto_slot e r fits)) r ends.0 ends.1)
  where
    from_steps :
        (steps : Dict NodeRef (List Node)) (n : UnitModel) (cmds : List UnitCmd)
        → Good (with_steps m steps) n cmds
        → Good m n cmds
    from_steps steps n cmds g = record {
      valid = g.valid;
      issued = g.issued;
      epochs = g.epochs;
      requests = g.requests;
    }
