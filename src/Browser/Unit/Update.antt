-- ===== src/Browser/Unit/Update.antt =====
-- core/unit/update.py: `update`, which hands each event to its handler.
use apm_repo_sdk_python.Base.{[], ◌∷◌, Option, none, some, if◌then◌else◌}
use apm_repo_sdk_python.Browser.Keys.{filter_text_changed, filter_closed}
use apm_repo_sdk_python.Browser.Unit.Model.{
  UnitModel, unit_slot_deceq, UnitMsg, UnitCmd, DetailBody, DetailState, Severity, provider_slot,
  detail_slot, goto_slot, unit_open_slot,
}
use apm_repo_sdk_python.Browser.Unit.Texts.{goto_ref_not_found_warning}
use apm_repo_sdk_python.Errors.{ok}
use apm_repo_sdk_python.Units.Node.{node_ref_deceq}
use apm_repo_sdk_python.Browser.Unit.Children.{
  Outcome, is_stale_for, on_root_requested, on_root_loaded, on_children_requested,
  on_children_loaded, on_children_load_failed, warn, on_load_more_requested,
  on_more_children_loaded, on_more_children_load_failed,
}
use apm_repo_sdk_python.Browser.Unit.Goto.{
  on_goto_requested, select_folder, on_detail_requested, on_goto_resolved, goto_ended_unlanded,
  on_unit_open_requested,
}

abbrev with_detail_body : Option DetailState → DetailBody → Option DetailState
with_detail_body none body = none
with_detail_body (some state) body = some (record state { body = body })

unfoldable pub update : UnitModel → UnitMsg → Outcome
unfolding on_root_requested on_root_loaded on_children_requested on_children_loaded
    on_children_load_failed on_load_more_requested on_more_children_loaded
    on_more_children_load_failed on_goto_requested on_goto_resolved goto_ended_unlanded
    on_unit_open_requested select_folder on_detail_requested
update model (UnitMsg.root_requested invalidate force_raw) =
    on_root_requested model invalidate force_raw
update model (UnitMsg.root_loaded epoch request handle root) =
    on_root_loaded model epoch request handle root
update model (UnitMsg.root_load_failed epoch request message) =
    if is_stale_for model provider_slot epoch request
    then ok (model, [])
    else ok (record model { root_error = some message; goto = none }, [])
update model (UnitMsg.children_requested node) = on_children_requested model node
update model (UnitMsg.children_loaded epoch request ref children exhausted) =
    on_children_loaded model epoch request ref children exhausted
update model (UnitMsg.children_load_failed epoch request ref message) =
    on_children_load_failed model epoch request ref message
update model (UnitMsg.load_more_requested node) = on_load_more_requested model node
update model (UnitMsg.more_children_loaded epoch request ref more exhausted) =
    on_more_children_loaded model epoch request ref more exhausted
update model (UnitMsg.more_children_load_failed epoch request ref message) =
    on_more_children_load_failed model epoch request ref message
update model (UnitMsg.goto_requested target) = on_goto_requested model target
update model (UnitMsg.goto_resolved epoch request chain children_by_step) =
    on_goto_resolved model epoch request chain children_by_step
update model (UnitMsg.goto_not_found epoch request) =
    if is_stale_for model goto_slot epoch request
    then ok (model, [])
    else goto_ended_unlanded model request
        (UnitCmd.notify goto_ref_not_found_warning Severity.warning)
update model (UnitMsg.goto_failed epoch request message) =
    if is_stale_for model goto_slot epoch request
    then ok (model, [])
    else goto_ended_unlanded model request (UnitCmd.notify message Severity.warning)
update model (UnitMsg.unit_open_requested node purpose) = on_unit_open_requested model node purpose
update model (UnitMsg.unit_opened epoch request unit purpose) =
    if is_stale_for model unit_open_slot epoch request
    then ok (model, [])
    else ok (model, UnitCmd.show_unit unit purpose ∷ [])
update model (UnitMsg.unit_open_failed epoch request message) =
    if is_stale_for model unit_open_slot epoch request then ok (model, []) else warn model message
update model (UnitMsg.filter_opened ref) =
    ok (record model { filter = some (record { ref = ref; text = "" }) }, [])
update model (UnitMsg.filter_text_changed text) = ok (
  filter_text_changed model (λ m. m.filter) (λ m s. record m { filter = some s })
      (λ s t. record s { text = t }) text,
  [],
)
update model UnitMsg.filter_closed =
    ok (filter_closed model (λ m. m.filter) (λ m. record m { filter = none }), [])
update model (UnitMsg.folder_selected folder) = select_folder model folder
update model (UnitMsg.detail_requested node) = ok (on_detail_requested model node)
update model (UnitMsg.detail_resolved epoch request body) =
    if is_stale_for model detail_slot epoch request
    then ok (model, [])
    else ok (record model { detail = with_detail_body model.detail body }, [])
update model (UnitMsg.verbose_set verbose) = ok (record model { verbose = verbose }, [])
