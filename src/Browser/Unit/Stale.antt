-- ===== src/Browser/Unit/Stale.antt =====
-- Results that come too late: what a result answers, and that a stale one changes nothing.
use apm_repo_sdk_python.Base.{◌≡◌, ◌≢◌, ◌⊎◌, arith, true, List, [], ◌∷◌, Option, none, some}
use apm_repo_sdk_python.Base.Dict.{lookup}
use apm_repo_sdk_python.Browser.Keys.{Epoch, RequestId, is_stale}
use apm_repo_sdk_python.Browser.Unit.Model.{
  UnitModel, UnitMsg, UnitCmd, UnitSlot, unit_slot_deceq, provider_slot, detail_slot, goto_slot,
  unit_open_slot, children_slot,
}
use apm_repo_sdk_python.Browser.Unit.Update.{update}
use apm_repo_sdk_python.Errors.{ok}

-- The slot, the epoch and the request number that a result comes back with.
abbrev pub origin : UnitMsg → Option (UnitSlot × Epoch × RequestId)
origin (UnitMsg.root_loaded e r handle root) = some (provider_slot, e, r)
origin (UnitMsg.root_load_failed e r message) = some (provider_slot, e, r)
origin (UnitMsg.children_loaded e r ref children exhausted) = some (children_slot ref, e, r)
origin (UnitMsg.children_load_failed e r ref message) = some (children_slot ref, e, r)
origin (UnitMsg.more_children_loaded e r ref more exhausted) = some (children_slot ref, e, r)
origin (UnitMsg.more_children_load_failed e r ref message) = some (children_slot ref, e, r)
origin (UnitMsg.goto_resolved e r chain steps) = some (goto_slot, e, r)
origin (UnitMsg.goto_not_found e r) = some (goto_slot, e, r)
origin (UnitMsg.goto_failed e r message) = some (goto_slot, e, r)
origin (UnitMsg.unit_opened e r unit purpose) = some (unit_open_slot, e, r)
origin (UnitMsg.unit_open_failed e r message) = some (unit_open_slot, e, r)
origin (UnitMsg.detail_resolved e r body) = some (detail_slot, e, r)
origin _ = none

-- A later reload, or a later request for the same slot, has made the result useless.
abbrev pub OutOfDate : UnitModel → Option (UnitSlot × Epoch × RequestId) → Type 0
OutOfDate model none = ⊥
OutOfDate model (some (slot, epoch, request)) =
    (model.epoch ≢ epoch) ⊎ (lookup slot model.inflight ≢ some request)

-- A provider that arrives too late is closed, since nothing else holds it.
abbrev pub released : UnitMsg → List UnitCmd
released (UnitMsg.root_loaded e r handle root) = UnitCmd.close_provider handle ∷ []
released _ = []

stale :
    (model : UnitModel) (slot : UnitSlot) (epoch : Epoch) (request : RequestId)
    → (model.epoch ≢ epoch) ⊎ (lookup slot model.inflight ≢ some request)
    → is_stale model.epoch model.inflight slot epoch request ≡ true
unfolding is_stale
stale model slot epoch request h = ground arith

-- A result that is out of date leaves the model as it is, whichever of the twelve results it is;
-- its only effect is to close a provider that it brings.
pub update-OutOfDate :
    (model : UnitModel) (msg : UnitMsg)
    → OutOfDate model (origin msg)
    → update model msg ≡ ok (model, released msg)
unfolding update
update-OutOfDate model (UnitMsg.root_loaded e r handle root) h =
    rw (stale model provider_slot e r h)
update-OutOfDate model (UnitMsg.root_load_failed e r message) h =
    rw (stale model provider_slot e r h)
update-OutOfDate model (UnitMsg.children_loaded e r ref children exhausted) h =
    rw (stale model (children_slot ref) e r h)
update-OutOfDate model (UnitMsg.children_load_failed e r ref message) h =
    rw (stale model (children_slot ref) e r h)
update-OutOfDate model (UnitMsg.more_children_loaded e r ref more exhausted) h =
    rw (stale model (children_slot ref) e r h)
update-OutOfDate model (UnitMsg.more_children_load_failed e r ref message) h =
    rw (stale model (children_slot ref) e r h)
update-OutOfDate model (UnitMsg.goto_resolved e r chain steps) h = rw (stale model goto_slot e r h)
update-OutOfDate model (UnitMsg.goto_not_found e r) h = rw (stale model goto_slot e r h)
update-OutOfDate model (UnitMsg.goto_failed e r message) h = rw (stale model goto_slot e r h)
update-OutOfDate model (UnitMsg.unit_opened e r unit purpose) h =
    rw (stale model unit_open_slot e r h)
update-OutOfDate model (UnitMsg.unit_open_failed e r message) h =
    rw (stale model unit_open_slot e r h)
update-OutOfDate model (UnitMsg.detail_resolved e r body) h = rw (stale model detail_slot e r h)
update-OutOfDate model _ h = absurd h
