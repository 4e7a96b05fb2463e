-- ===== src/Browser/Unit/Goto.antt =====
-- core/unit/update.py: the handlers of gotos, of the selection and of the detail pane.
use apm_repo_sdk_python.Base.{
  Bool, true, false, ◌||◌, List, [], ◌∷◌, ◌++◌, map, Option, none, some, if◌then◌else◌,
}
use apm_repo_sdk_python.Base.Dict.{Dict, insert, update as update_dict, without, minus}
use apm_repo_sdk_python.Browser.Keys.{Epoch, RequestId, ProviderHandle}
use apm_repo_sdk_python.Browser.Unit.Model.{
  UnitModel, unit_slot_deceq, UnitCmd, GotoState, Landing, DetailBody, DetailState, LoadedLevel,
  UnitPurpose, detail_slot, goto_slot, unit_open_slot, children_slot, preview_read_limit,
  list_overview_item_cap, list_overview_max_concurrent,
}
use apm_repo_sdk_python.Errors.{ok, raise, Error, ◌>>=◌}
use apm_repo_sdk_python.Units.Node.{Node, NodeRef, node_ref_deceq, NodeRole}
use apm_repo_sdk_python.Browser.Unit.Children.{
  Outcome, next_request, is_stale_for, start_goto, on_children_requested, by_ref,
}

abbrev pub was_skipped : Option GotoState → Bool
was_skipped none = false
was_skipped (some goto) = goto.root_expand_skipped

unfoldable pub on_goto_requested : UnitModel → NodeRef → Outcome
unfolding start_goto
on_goto_requested model target = elim model.provider [
  | none ↦
      ok
        (record model { goto = some (record { target = target; root_expand_skipped = false }) }, [])
  | some handle ↦
      start_goto model (record { target = target; root_expand_skipped = was_skipped model.goto })
]

unfoldable pub select_folder : UnitModel → Node → Outcome
unfolding on_children_requested
select_folder model folder = elim folder.role [
  | NodeRole.list_overview ↦ ok (model, [])
  | NodeRole.flat_category ↦
      on_children_requested (record model { selected = some folder.ref }) folder
  | NodeRole.ordinary ↦ ok (record model { selected = some folder.ref }, [])
]

abbrev pub is_loading : Option DetailState → Bool
is_loading none = false
is_loading (some state) = elim state.body [ DetailBody.detail_loading ↦ true | _ ↦ false ]

abbrev pub is_list_overview : NodeRole → Bool
is_list_overview role = elim role [ NodeRole.list_overview ↦ true | _ ↦ false ]

abbrev pub detail_fetch : UnitModel → RequestId → ProviderHandle → Node → UnitCmd
detail_fetch model request handle node =
    if node.is_leaf
    then UnitCmd.load_preview model.epoch request handle node preview_read_limit
    else UnitCmd.load_list_overview model.epoch request handle node list_overview_item_cap
        preview_read_limit list_overview_max_concurrent

-- No fetch is started: the pane is idle, and a fetch that ran is stopped.
abbrev pub idle_detail : UnitModel → Bool → Node → UnitModel × List UnitCmd
idle_detail model was_loading node = (
  record model { detail = some (record { node = node; body = DetailBody.detail_idle }) },
  if was_loading then UnitCmd.cancel_detail_fetch ∷ [] else [],
)

unfoldable pub on_detail_requested : UnitModel → Node → UnitModel × List UnitCmd
on_detail_requested model node =
    let was_loading = is_loading model.detail in
    let (request, counted) = next_request model in
    let model' = record counted { inflight = insert detail_slot request counted.inflight } in
    if node.is_leaf || is_list_overview node.role
    then elim model.provider [
      | none ↦ idle_detail model' was_loading node
      | some handle ↦ (
        record model' { detail = some (record { node = node; body = DetailBody.detail_loading }) },
        detail_fetch model' request handle node ∷ [],
      )
    ]
    else idle_detail model' was_loading node

-- The last node of a chain and the one before it, if there are such.
abbrev pub chain_end : List Node → Option (Node × Option Node)
chain_end [] = none
chain_end (target ∷ []) = some (target, none)
chain_end (parent ∷ target ∷ []) = some (target, some parent)
chain_end (first ∷ second ∷ third ∷ rest) = chain_end (second ∷ third ∷ rest)

-- `zip(chain, children_by_step, strict=False)`, by the refs of the chain.
abbrev pub zip_steps : List Node → List (List Node) → Dict NodeRef (List Node)
zip_steps (step ∷ chain) (children ∷ rest) = (step.ref, children) ∷ zip_steps chain rest
zip_steps _ _ = []

-- A leaf shows in its parent folder, which is then expanded.
abbrev pub landing_of : RequestId → Node → Option Node → Node × Landing
landing_of request target none =
    (target, record { request = request; folder = target.ref; leaf = none; expand = false })
landing_of request target (some parent) =
    if target.is_leaf
    then (
      parent,
      record { request = request; folder = parent.ref; leaf = some target.ref; expand = true },
    )
    else (target, record { request = request; folder = target.ref; leaf = none; expand = false })

abbrev pub complete_level : NodeRef × List Node → NodeRef × LoadedLevel
complete_level step = (step.0, record { children = step.1; exhausted = true })

abbrev pub all_children : Dict NodeRef (List Node) → List Node
all_children [] = []
all_children ((ref, children) ∷ steps) = children ++ all_children steps

-- The model once a goto's levels are in it.
unfoldable pub with_steps : UnitModel → Dict NodeRef (List Node) → UnitModel
with_steps model steps =
    let slots = map (λ step. children_slot step.0) steps in
    record model {
      loaded = update_dict model.loaded (map complete_level steps);
      node_index = update_dict model.node_index (by_ref (all_children steps));
      inflight = without slots model.inflight;
      pending = minus model.pending slots;
      goto = none;
    }

-- The cursor lands, its folder is selected, and the target's detail is asked for.
unfoldable pub land : UnitModel → RequestId → Node → Option Node → Outcome
unfolding select_folder on_detail_requested
land model request target parent =
    let (folder, landing) = landing_of request target parent in
    do
      (selected, select_cmds) ← select_folder (record model { landing = some landing }) folder
      let (shown, detail_cmds) = on_detail_requested selected target
      ok (shown, select_cmds ++ detail_cmds)

unfoldable pub on_goto_resolved :
    UnitModel → Epoch → RequestId → List Node → List (List Node) → Outcome
unfolding with_steps land
on_goto_resolved model epoch request chain children_by_step =
    if is_stale_for model goto_slot epoch request then ok (model, []) else elim (chain_end chain) [
      | none ↦ raise Error.index_error
      | some (target, parent) ↦
          land (with_steps model (update_dict [] (zip_steps chain children_by_step))) request target
            parent
    ]

-- A root kept collapsed for the goto is expanded after all.
abbrev pub unlanded : Option GotoState → Option Node → RequestId → Option Landing → Option Landing
unlanded none root request landing = landing
unlanded (some goto) none request landing = landing
unlanded (some goto) (some root) request landing =
    if goto.root_expand_skipped
    then some (record { request = request; folder = root.ref; leaf = none; expand = true })
    else landing

unfoldable pub goto_ended_unlanded : UnitModel → RequestId → UnitCmd → Outcome
goto_ended_unlanded model request notice = ok (
  record model { goto = none; landing = unlanded model.goto model.root request model.landing },
  notice ∷ [],
)

unfoldable pub on_unit_open_requested : UnitModel → Node → UnitPurpose → Outcome
on_unit_open_requested model node purpose = elim model.provider [
  | none ↦ ok (model, [])
  | some handle ↦
      let (request, model') = next_request model in
      ok (
        record model' { inflight = insert unit_open_slot request model'.inflight },
        UnitCmd.open_unit model'.epoch request handle node purpose ∷ [],
      )
]
