-- ===== src/Browser/Unit/Landed.antt =====
-- core/unit/update.py: where a goto that is resolved leaves the screen.
use apm_repo_sdk_python.Base.{
  ◌≡◌, ◌≢◌, ◌∙◌, refl, Bool, true, false, ◌||◌, List, [], ◌++◌, Option, none, some, if◌then◌else◌,
}
use apm_repo_sdk_python.Base.Dict.{lookup, update as update_dict}
use apm_repo_sdk_python.Browser.Keys.{RequestId, ProviderHandle, is_stale_iff}
use apm_repo_sdk_python.Browser.Unit.Children.{
  Outcome, on_children_requested, is_loaded, is_stale_for,
}
use apm_repo_sdk_python.Browser.Unit.Good.{
  Ensures, Ensures-bind, Ensures-map, Ensures-ok, returns, on_branch, on_held,
}
use apm_repo_sdk_python.Browser.Unit.Goto.{
  select_folder, on_detail_requested, landing_of, land, with_steps, zip_steps, on_goto_resolved,
  is_list_overview,
}
use apm_repo_sdk_python.Browser.Unit.Model.{
  UnitModel, UnitMsg, UnitCmd, Landing, DetailState, unit_slot_deceq, goto_slot,
  has_pending_children,
}
use apm_repo_sdk_python.Browser.Unit.Landing.{
  LandsAt, EndsWith, chain_end-EndsWith, landing_of-LandsAt,
}
use apm_repo_sdk_python.Browser.Unit.Raises.{Returns, returned}
use apm_repo_sdk_python.Browser.Unit.Total.{on_goto_resolved-Returns}
use apm_repo_sdk_python.Browser.Unit.Update.{update}
use apm_repo_sdk_python.Browser.Unit.Valid.{IsValid}
use apm_repo_sdk_python.Errors.{ok}
use apm_repo_sdk_python.Units.Node.{Node, NodeRole, node_ref_deceq}

abbrev pub detail_node : Option DetailState → Option Node
detail_node none = none
detail_node (some state) = some state.node

abbrev Kept : UnitModel → UnitModel → List UnitCmd → Type 0
Kept m n cmds = (n.goto ≡ m.goto) × (n.landing ≡ m.landing)

on_children_requested-Kept :
    (m : UnitModel) (node : Node) → Ensures (Kept m) (on_children_requested m node)
unfolding on_children_requested
on_children_requested-Kept m node =
    on_branch (is_loaded m node.ref || has_pending_children m node.ref) (λ _. returns (refl, refl))
      (λ _. on_held m (λ handle held. returns (refl, refl)))

role_cases :
    {P : UnitModel → List UnitCmd → Type 0} (role : NodeRole) {x y z : Outcome}
    → Ensures P x
    → Ensures P y
    → Ensures P z
    → Ensures P (elim role as (λ r. Outcome) [
      | NodeRole.list_overview ↦ x
      | NodeRole.flat_category ↦ y
      | NodeRole.ordinary ↦ z
    ])
role_cases NodeRole.list_overview h k l = h
role_cases NodeRole.flat_category h k l = k
role_cases NodeRole.ordinary h k l = l

select_folder-Kept : (m : UnitModel) (folder : Node) → Ensures (Kept m) (select_folder m folder)
unfolding select_folder
select_folder-Kept m folder =
    role_cases folder.role (returns (refl, refl))
      (Ensures-map (λ n cmds k. (k.0, k.1))
        (on_children_requested-Kept (record m { selected = some folder.ref }) folder))
      (returns (refl, refl))

-- The pane is the node's, and neither goto nor landing change.
data Shows (m : UnitModel) (node : Node) : UnitModel × List UnitCmd → Type 0 where
  shows :
      {r : UnitModel × List UnitCmd}
      → (detail_node r.0.detail ≡ some node) × (r.0.goto ≡ m.goto) × (r.0.landing ≡ m.landing)
      → Shows m node r

module _ {m : UnitModel} {node : Node} where
  Shows-branch :
      (t : Bool) {x y : UnitModel × List UnitCmd}
      → Shows m node x
      → Shows m node y
      → Shows m node (if t then x else y)
  Shows-branch true h k = h
  Shows-branch false h k = k

  Shows-option :
      (o : Option ProviderHandle) {x : UnitModel × List UnitCmd}
      {f : ProviderHandle → UnitModel × List UnitCmd}
      → Shows m node x
      → ((handle : ProviderHandle) → Shows m node (f handle))
      → Shows m node
          (elim o as (λ y. UnitModel × List UnitCmd) [ none ↦ x | some handle ↦ f handle ])
  Shows-option none h k = h
  Shows-option (some handle) h k = k handle

on_detail_requested-Shows :
    (m : UnitModel) (node : Node) → Shows m node (on_detail_requested m node)
unfolding on_detail_requested
on_detail_requested-Shows m node =
    Shows-branch (node.is_leaf || is_list_overview node.role)
      (Shows-option m.provider (shows (refl, refl, refl)) (λ handle. shows (refl, refl, refl)))
      (shows (refl, refl, refl))

shown :
    {m : UnitModel} {node : Node} {r : UnitModel × List UnitCmd}
    → Shows m node r
    → (detail_node r.0.detail ≡ some node) × (r.0.goto ≡ m.goto) × (r.0.landing ≡ m.landing)
shown (shows h) = h

-- The screen shows the chain's last node: no goto is left, the tree lands where that node is, and
-- the detail pane is its.
abbrev pub Lands : List Node → RequestId → UnitModel → Type 0
Lands chain request n =
    (n.goto ≡ none)
    × (last : Node) × (landing : Landing) × (n.landing ≡ some landing)
    × (detail_node n.detail ≡ some last)
    × LandsAt chain request last landing

land-Lands :
    (m : UnitModel) (request : RequestId) (chain : List Node) (target : Node) (parent : Option Node)
    → m.goto ≡ none
    → EndsWith chain target parent
    → Ensures (λ n cmds. Lands chain request n) (land m request target parent)
unfolding land
land-Lands m request chain target parent idle ends =
    Ensures-bind
      (λ r. ok ((on_detail_requested r.0 target).0, r.1 ++ (on_detail_requested r.0 target).1))
      (select_folder-Kept (record m { landing = some (landing_of request target parent).1 })
        (landing_of request target parent).0)
      λ n cmds k.
        let kept = shown (on_detail_requested-Shows n target) in
        returns (
          kept.1 ∙ (k.0 ∙ idle),
          target,
          (landing_of request target parent).1,
          kept.2 ∙ k.1,
          kept.0,
          landing_of-LandsAt chain request target parent ends,
        )

on_goto_resolved-Lands :
    (m : UnitModel) (request : RequestId) (chain : List Node) (steps : List (List Node))
    → is_stale_for m goto_slot m.epoch request ≡ false
    → chain ≢ []
    → Ensures (λ n cmds. Lands chain request n) (on_goto_resolved m m.epoch request chain steps)
unfolding on_goto_resolved with_steps
on_goto_resolved-Lands m request chain steps fits h =
    let (target, parent, ends, with_last) = chain_end-EndsWith chain h in
    rw (fits, on_goto_resolved, ends)
      (land-Lands (with_steps m (update_dict [] (zip_steps chain steps))) request chain target
        parent refl with_last)

Returns-some : {x : Outcome} → Returns x → (r : UnitModel × List UnitCmd) × (x ≡ ok r)
Returns-some (returned {r = r}) = (r, refl)

-- In a valid model, a goto that is awaited and that brings a chain of nodes is handled without an
-- exception, and the screen shows the chain's last node: no goto is left, the detail pane is that
-- node's, and the tree lands on it. Where it is a folder the tree lands on the folder itself; a
-- leaf is shown in the folder before it in the chain, which is expanded; a leaf that is the whole
-- chain is landed on alone.
pub goto_resolved-Lands :
    (m : UnitModel) (request : RequestId) (chain : List Node) (steps : List (List Node))
    → IsValid m
    → lookup goto_slot m.inflight ≡ some request
    → chain ≢ []
    → (n : UnitModel) × (cmds : List UnitCmd) × (update m
          (UnitMsg.goto_resolved m.epoch request chain steps)
        ≡ ok (n, cmds))
      × Lands chain request n
unfolding update
goto_resolved-Lands m request chain steps v awaited h =
    let (r, there) = Returns-some (on_goto_resolved-Returns m m.epoch request chain steps v h) in
    (
      r.0,
      r.1,
      there,
      Ensures-ok
          (on_goto_resolved-Lands m request chain steps
            ((is_stale_iff m.epoch m.inflight goto_slot m.epoch request).1 (refl, awaited)) h)
          there,
    )
