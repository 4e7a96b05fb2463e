-- ===== src/Browser/Unit/Steps.antt =====
-- Every handler, from a valid model, gives a good outcome: the next model is valid, and the
-- fetches that are started are those that it waits for. Here for `update` as a whole.
mod Children
mod Goto
mod Landing
mod Root
use Prim.Native.String.{String}
use apm_repo_sdk_python.Base.{
  ◌≡◌, refl, arith, List, [], ◌∷◌, Option, none, some, Option-cases, inl, inr, ◌⊎◌, if◌then◌else◌,
}
use apm_repo_sdk_python.Base.Dict.{lookup, contains}
use apm_repo_sdk_python.Browser.Keys.{RequestId}
use apm_repo_sdk_python.Browser.Unit.Children.{is_stale_for}
use apm_repo_sdk_python.Browser.Unit.Good.{
  Good, quiet-Good, Ensures, Ensures-ok, Ensures-map, returns, core, on_branch,
}
use apm_repo_sdk_python.Browser.Unit.Goto.{goto_ended_unlanded}
use apm_repo_sdk_python.Browser.Unit.Model.{
  UnitModel, UnitMsg, FilterState, UnitCmd, Severity, initial, provider_slot, goto_slot,
  detail_slot, unit_open_slot, unit_slot_deceq,
}
use apm_repo_sdk_python.Browser.Unit.Update.{update}
use apm_repo_sdk_python.Browser.Unit.Valid.{IsValid}
use apm_repo_sdk_python.Errors.{ok}
use apm_repo_sdk_python.Units.Node.{node_ref_deceq}
use Children.{
  on_root_requested-Good, on_children_requested-Good, on_children_loaded-Good,
  on_children_load_failed-Good, on_load_more_requested-Good, on_more_children_loaded-Good,
  on_more_children_load_failed-Good,
}
use Goto.{on_goto_requested-Good, on_unit_open_requested-Good, on_detail_requested-Good}
use Root.{on_root_loaded-Good}
use Landing.{select_folder-Good, on_goto_resolved-Good}

-- The store starts in a valid state.
pub initial-IsValid : IsValid initial
unfolding lookup contains
initial-IsValid = record {
  fresh = λ s r e. cc;
  running = λ s c. cc;
  indexed = λ r l e. cc;
  detached = λ e. (refl, refl, refl, λ ref. refl, refl);
}

goto_ended_unlanded-Good :
    (m : UnitModel) (v : IsValid m) (request : RequestId) (text : String) (severity : Severity)
    → Ensures (Good m) (goto_ended_unlanded m request (UnitCmd.notify text severity))
unfolding goto_ended_unlanded
goto_ended_unlanded-Good m v request text severity = returns (quiet-Good m refl (tt, tt) v)

core-filter_text_changed :
    (m : UnitModel) (text : String) (o : Option FilterState)
    → core m
      ≡ core (elim o as (λ x. UnitModel) [
        | none ↦ m
        | some state ↦ record m { filter = some (record state { text = text }) }
      ])
core-filter_text_changed m text none = refl
core-filter_text_changed m text (some state) = refl

core-filter_closed :
    (m : UnitModel) (o : Option FilterState)
    → core m ≡ core (elim o as (λ x. UnitModel) [ none ↦ m | some _ ↦ record m { filter = none } ])
core-filter_closed m none = refl
core-filter_closed m (some state) = refl

update-Ensures : (m : UnitModel) (v : IsValid m) (msg : UnitMsg) → Ensures (Good m) (update m msg)
unfolding update
update-Ensures m v (UnitMsg.root_requested i f) = on_root_requested-Good m v i f
update-Ensures m v (UnitMsg.root_loaded e r handle root) = on_root_loaded-Good m v e r handle root
update-Ensures m v (UnitMsg.root_load_failed e r message) =
    on_branch (is_stale_for m provider_slot e r) (λ _. returns (quiet-Good m refl tt v))
      (λ _. returns (quiet-Good m refl tt v))
update-Ensures m v (UnitMsg.children_requested node) = on_children_requested-Good m v node
update-Ensures m v (UnitMsg.children_loaded e r ref children done) =
    on_children_loaded-Good m v e r ref children done
update-Ensures m v (UnitMsg.children_load_failed e r ref message) =
    on_children_load_failed-Good m v e r ref message
update-Ensures m v (UnitMsg.load_more_requested node) = on_load_more_requested-Good m v node
update-Ensures m v (UnitMsg.more_children_loaded e r ref more done) =
    on_more_children_loaded-Good m v e r ref more done
update-Ensures m v (UnitMsg.more_children_load_failed e r ref message) =
    on_more_children_load_failed-Good m v e r ref message
update-Ensures m v (UnitMsg.goto_requested target) = on_goto_requested-Good m v target
update-Ensures m v (UnitMsg.goto_resolved e r chain steps) =
    on_goto_resolved-Good m v e r chain steps
update-Ensures m v (UnitMsg.goto_not_found e r) =
    on_branch (is_stale_for m goto_slot e r) (λ _. returns (quiet-Good m refl tt v))
      (λ _. goto_ended_unlanded-Good m v r _ _)
update-Ensures m v (UnitMsg.goto_failed e r message) =
    on_branch (is_stale_for m goto_slot e r) (λ _. returns (quiet-Good m refl tt v))
      (λ _. goto_ended_unlanded-Good m v r _ _)
update-Ensures m v (UnitMsg.unit_open_requested node purpose) =
    on_unit_open_requested-Good m v node purpose
update-Ensures m v (UnitMsg.unit_opened e r unit purpose) =
    on_branch (is_stale_for m unit_open_slot e r) (λ _. returns (quiet-Good m refl tt v))
      (λ _. returns (quiet-Good m refl (tt, tt) v))
update-Ensures m v (UnitMsg.unit_open_failed e r message) =
    on_branch (is_stale_for m unit_open_slot e r) (λ _. returns (quiet-Good m refl tt v))
      (λ _. returns (quiet-Good m refl (tt, tt) v))
update-Ensures m v (UnitMsg.filter_opened ref) = returns (quiet-Good m refl tt v)
update-Ensures m v (UnitMsg.filter_text_changed text) =
    returns (quiet-Good m (core-filter_text_changed m text m.filter) tt v)
update-Ensures m v UnitMsg.filter_closed =
    returns (quiet-Good m (core-filter_closed m m.filter) tt v)
update-Ensures m v (UnitMsg.folder_selected folder) =
    Ensures-map (λ n cmds g. g.0) (select_folder-Good m v folder)
update-Ensures m v (UnitMsg.detail_requested node) = returns (on_detail_requested-Good m v node)
update-Ensures m v (UnitMsg.detail_resolved e r body) =
    on_branch (is_stale_for m detail_slot e r) (λ _. returns (quiet-Good m refl tt v))
      (λ _. returns (quiet-Good m refl tt v))
update-Ensures m v (UnitMsg.verbose_set verbose) = returns (quiet-Good m refl tt v)

-- One event that the store handles without an exception: the model stays valid, each fetch that
-- is started carries the request that the new model waits for, under a number that was not given
-- out before and with the provider that the new model holds, and the epoch and the request
-- numbers never go back.
pub update-Good :
    (m : UnitModel) (msg : UnitMsg) {n : UnitModel} {cmds : List UnitCmd}
    → IsValid m
    → update m msg ≡ ok (n, cmds)
    → Good m n cmds
update-Good m msg v e = Ensures-ok (update-Ensures m v msg) e
