-- ===== src/Browser/Unit/Children.antt =====
-- core/unit/update.py: the handlers of the root and of the children of a node. A handler returns
-- the next model and the effects to run, or raises where it asserts that a provider is held.
use Prim.Native.String.{String}
use apm_repo_sdk_python.Base.{
  ℕ, ◌+◌, Bool, true, false, ◌||◌, List, [], ◌∷◌, ◌++◌, map, Option, none, some, length,
  if◌then◌else◌,
}
use apm_repo_sdk_python.Base.Dict.{
  Dict, lookup, insert, update as update_dict, without, add, remove,
}
use apm_repo_sdk_python.Browser.Keys.{Epoch, RequestId, ProviderHandle, is_stale}
use apm_repo_sdk_python.Browser.Unit.Model.{
  UnitModel, unit_slot_deceq, UnitCmd, UnitSlot, GotoState, LoadedLevel, Severity, provider_slot,
  goto_slot, children_slot, has_pending_children, next_offset,
}
use apm_repo_sdk_python.Browser.Unit.Texts.{
  load_more_text, nothing_to_load_warning, already_complete_warning, already_loading_warning,
}
use apm_repo_sdk_python.Errors.{Result, ok, raise, Error, ◌>>=◌}
use apm_repo_sdk_python.Units.Node.{Node, NodeRef, node_ref_deceq}

abbrev pub children_page_size : ℕ
children_page_size = 500

abbrev pub Outcome : Type 0
Outcome = Result (UnitModel × List UnitCmd)

-- `next_request(model)`: the number, and the model with its counter incremented.
abbrev pub next_request : UnitModel → RequestId × UnitModel
next_request model = (model.next_request, record model { next_request = model.next_request + 1 })

-- `assert model.provider is not None`.
abbrev pub held_provider : UnitModel → Result ProviderHandle
held_provider model = elim model.provider [
  | none ↦ raise Error.assertion_error
  | some handle ↦ ok handle
]

abbrev pub close_cmds : Option ProviderHandle → List UnitCmd
close_cmds none = []
close_cmds (some handle) = UnitCmd.close_provider handle ∷ []

-- A goto that waits for the root still waits; one being resolved read the provider that goes.
abbrev pub kept_goto : Option ProviderHandle → Option GotoState → Option GotoState
kept_goto none goto = goto
kept_goto (some handle) goto = none

abbrev pub is_stale_for : UnitModel → UnitSlot → Epoch → RequestId → Bool
is_stale_for model slot epoch request = is_stale model.epoch model.inflight slot epoch request

unfoldable pub on_root_requested : UnitModel → (invalidate force_raw : Bool) → Outcome
on_root_requested model invalidate force_raw =
    let new_epoch = model.epoch + 1 in
    let (request, model') = next_request model in
    ok (
      record model' {
        epoch = new_epoch;
        inflight = (provider_slot, request) ∷ [];
        pending = [];
        provider = none;
        root = none;
        root_error = none;
        loaded = [];
        node_index = [];
        errors = [];
        filter = none;
        selected = none;
        detail = none;
        goto = kept_goto model.provider model.goto;
        landing = none;
      },
      close_cmds model.provider ++ (UnitCmd.load_root new_epoch request invalidate force_raw ∷ []),
    )

unfoldable pub start_goto : UnitModel → GotoState → Outcome
start_goto model goto = do
  let (request, model') = next_request model
  handle ← held_provider model'
  ok (
    record model' { goto = some goto; inflight = insert goto_slot request model'.inflight },
    UnitCmd.resolve_goto model'.epoch request handle goto.target ∷ [],
  )

unfoldable pub on_root_loaded : UnitModel → Epoch → RequestId → ProviderHandle → Node → Outcome
on_root_loaded model epoch request handle root =
    if is_stale_for model provider_slot epoch request
    then ok (model, UnitCmd.close_provider handle ∷ [])
    else let model' = record model {
      provider = some handle;
      root = some root;
      root_error = none;
      selected = some root.ref;
    } in
      elim model.goto [
        | none ↦ ok (model', [])
        | some goto ↦
            start_goto model' (record { target = goto.target; root_expand_skipped = true })
      ]

-- `{**inflight, slot: request}` and `pending | {slot}` for a children fetch that starts.
abbrev pub start_children : UnitModel → NodeRef → UnitModel
start_children model ref =
    let (request, model') = next_request model in
    record model' {
      inflight = insert (children_slot ref) request model'.inflight;
      pending = add (children_slot ref) model'.pending;
    }

-- `ref in model.loaded`.
abbrev pub is_loaded : UnitModel → NodeRef → Bool
is_loaded model ref = elim (lookup ref model.loaded) [ none ↦ false | some _ ↦ true ]

unfoldable pub on_children_requested : UnitModel → Node → Outcome
on_children_requested model node =
    if is_loaded model node.ref || has_pending_children model node.ref then ok (model, []) else do
      handle ← held_provider model
      ok (
        start_children model node.ref,
        UnitCmd.load_children model.epoch model.next_request handle node 0 children_page_size ∷ [],
      )

-- `{child.ref: child for child in children}`, as pairs.
abbrev pub by_ref : List Node → Dict NodeRef Node
by_ref = map (λ child. (child.ref, child))

unfoldable pub on_children_loaded :
    UnitModel → Epoch → RequestId → NodeRef → List Node → Bool → Outcome
on_children_loaded model epoch request ref children exhausted =
    if is_stale_for model (children_slot ref) epoch request
    then ok (model, [])
    else ok (
      record model {
        loaded = insert ref (record { children = children; exhausted = exhausted }) model.loaded;
        node_index = update_dict model.node_index (by_ref children);
        errors = without (ref ∷ []) model.errors;
        pending = remove (children_slot ref) model.pending;
      },
      [],
    )

unfoldable pub on_children_load_failed : UnitModel → Epoch → RequestId → NodeRef → String → Outcome
on_children_load_failed model epoch request ref message =
    if is_stale_for model (children_slot ref) epoch request
    then ok (model, [])
    else ok (
      record model {
        errors = insert ref message model.errors;
        pending = remove (children_slot ref) model.pending;
      },
      [],
    )

abbrev pub warn : UnitModel → String → Outcome
warn model message = ok (model, UnitCmd.notify message Severity.warning ∷ [])

unfoldable pub load_more : UnitModel → Node → LoadedLevel → Outcome
load_more model node level =
    if level.exhausted
    then warn model already_complete_warning
    else if has_pending_children model node.ref
    then warn model already_loading_warning
    else do
      handle ← held_provider model
      ok (
        start_children model node.ref,
        UnitCmd.load_children model.epoch model.next_request handle node (next_offset level)
              children_page_size
            ∷ [],
      )

unfoldable pub on_load_more_requested : UnitModel → Node → Outcome
unfolding load_more
on_load_more_requested model node = elim (lookup node.ref model.loaded) [
  | none ↦ warn model nothing_to_load_warning
  | some level ↦ load_more model node level
]

-- The children loaded so far, none for a level that is not there.
abbrev pub loaded_children : Option LoadedLevel → List Node
loaded_children none = []
loaded_children (some level) = level.children

unfoldable pub on_more_children_loaded :
    UnitModel → Epoch → RequestId → NodeRef → List Node → Bool → Outcome
on_more_children_loaded model epoch request ref more exhausted =
    if is_stale_for model (children_slot ref) epoch request
    then ok (model, [])
    else let children = loaded_children (lookup ref model.loaded) ++ more in
      ok (
        record model {
          loaded = insert ref (record { children = children; exhausted = exhausted }) model.loaded;
          node_index = update_dict model.node_index (by_ref more);
          pending = remove (children_slot ref) model.pending;
        },
        UnitCmd.notify (load_more_text (length more) (length children)) Severity.information ∷ [],
      )

unfoldable pub on_more_children_load_failed :
    UnitModel → Epoch → RequestId → NodeRef → String → Outcome
on_more_children_load_failed model epoch request ref message =
    if is_stale_for model (children_slot ref) epoch request
    then ok (model, [])
    else warn (record model { pending = remove (children_slot ref) model.pending }) message
