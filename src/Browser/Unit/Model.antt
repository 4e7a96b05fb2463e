-- ===== src/Browser/Unit/Model.antt =====
-- core/unit/model.py, msg.py and cmd.py: the state of `UnitScreen`, the events that its store
-- handles and the effects that it asks for; core/notify.py and the texts of strings.py.
use Prim.Native.String.{String}
use apm_repo_sdk_python.Base.{ℕ, ◌*◌, Bool, false, List, [], Option, none, some, length, DecEq}
use apm_repo_sdk_python.Base.Dict.{Dict, Frozenset, contains}
use apm_repo_sdk_python.Browser.Keys.{Epoch, RequestId, ProviderHandle, Slot}
use apm_repo_sdk_python.Units.Node.{Node, NodeRef, NodeRef-discrete, RestorableUnit}

pub data SlotKind : Type 0 where
  provider detail goto unit_open children : SlotKind

abbrev pub UnitSlot : Type 0
UnitSlot = Slot SlotKind NodeRef

UnitSlot-discrete : Discrete UnitSlot
UnitSlot-discrete = hlevel NodeRef-discrete

instance abbrev pub unit_slot_deceq : DecEq UnitSlot
unfolding UnitSlot-discrete
unit_slot_deceq = record { eq? = UnitSlot-discrete }

abbrev pub provider_slot : UnitSlot
provider_slot = record { kind = SlotKind.provider; key = none }

abbrev pub detail_slot : UnitSlot
detail_slot = record { kind = SlotKind.detail; key = none }

abbrev pub goto_slot : UnitSlot
goto_slot = record { kind = SlotKind.goto; key = none }

abbrev pub unit_open_slot : UnitSlot
unit_open_slot = record { kind = SlotKind.unit_open; key = none }

abbrev pub children_slot : NodeRef → UnitSlot
children_slot ref = record { kind = SlotKind.children; key = some ref }

abbrev pub preview_read_limit : ℕ
preview_read_limit = 256 * 1024

abbrev pub list_overview_item_cap : ℕ
list_overview_item_cap = 50

abbrev pub list_overview_max_concurrent : ℕ
list_overview_max_concurrent = 8

pub data UnitPurpose : Type 0 where
  export_unit hex_preview : UnitPurpose

pub record GotoState : Type 0 where
  pub target : NodeRef
  pub root_expand_skipped : Bool

pub record Landing : Type 0 where
  pub request : RequestId
  pub folder : NodeRef
  pub leaf : Option NodeRef
  pub expand : Bool

-- The cells of an overview row are display texts.
pub data DetailBody : Type 0 where
  detail_idle detail_loading : DetailBody
  detail_preview : String → DetailBody
  detail_note : String → DetailBody
  detail_error : String → DetailBody
  detail_overview : List (Dict String String) → Bool → DetailBody

pub record DetailState : Type 0 where
  pub node : Node
  pub body : DetailBody

pub record LoadedLevel : Type 0 where
  pub children : List Node
  pub exhausted : Bool

abbrev pub next_offset : LoadedLevel → ℕ
next_offset level = length level.children

pub record FilterState : Type 0 where
  pub ref : NodeRef
  pub text : String

pub record UnitModel : Type 0 where
  pub epoch : Epoch
  pub inflight : Dict UnitSlot RequestId
  pub pending : Frozenset UnitSlot
  pub next_request : RequestId
  pub provider : Option ProviderHandle
  pub root : Option Node
  pub root_error : Option String
  pub loaded : Dict NodeRef LoadedLevel
  pub node_index : Dict NodeRef Node
  pub errors : Dict NodeRef String
  pub filter : Option FilterState
  pub selected : Option NodeRef
  pub detail : Option DetailState
  pub verbose : Bool
  pub goto : Option GotoState
  pub landing : Option Landing

-- The defaults of the fields.
abbrev pub initial : UnitModel
initial = record {
  epoch = 0;
  inflight = [];
  pending = [];
  next_request = 1;
  provider = none;
  root = none;
  root_error = none;
  loaded = [];
  node_index = [];
  errors = [];
  filter = none;
  selected = none;
  detail = none;
  verbose = false;
  goto = none;
  landing = none;
}

unfoldable pub has_pending_children : UnitModel → NodeRef → Bool
has_pending_children model ref = contains (children_slot ref) model.pending

pub data UnitMsg : Type 0 where
  root_requested : (invalidate force_raw : Bool) → UnitMsg
  root_loaded : Epoch → RequestId → ProviderHandle → Node → UnitMsg
  root_load_failed : Epoch → RequestId → String → UnitMsg
  children_requested : Node → UnitMsg
  children_loaded : Epoch → RequestId → NodeRef → List Node → Bool → UnitMsg
  children_load_failed : Epoch → RequestId → NodeRef → String → UnitMsg
  load_more_requested : Node → UnitMsg
  more_children_loaded : Epoch → RequestId → NodeRef → List Node → Bool → UnitMsg
  more_children_load_failed : Epoch → RequestId → NodeRef → String → UnitMsg
  goto_requested : NodeRef → UnitMsg
  goto_resolved : Epoch → RequestId → List Node → List (List Node) → UnitMsg
  goto_not_found : Epoch → RequestId → UnitMsg
  goto_failed : Epoch → RequestId → String → UnitMsg
  unit_open_requested : Node → UnitPurpose → UnitMsg
  unit_opened : Epoch → RequestId → RestorableUnit → UnitPurpose → UnitMsg
  unit_open_failed : Epoch → RequestId → String → UnitMsg
  filter_opened : NodeRef → UnitMsg
  filter_text_changed : String → UnitMsg
  filter_closed : UnitMsg
  folder_selected : Node → UnitMsg
  detail_requested : Node → UnitMsg
  detail_resolved : Epoch → RequestId → DetailBody → UnitMsg
  verbose_set : Bool → UnitMsg

pub data Severity : Type 0 where
  information warning error : Severity

-- `title` stays unset in this store's notices.
pub data UnitCmd : Type 0 where
  load_root : Epoch → RequestId → (invalidate force_raw : Bool) → UnitCmd
  close_provider : ProviderHandle → UnitCmd
  load_children : Epoch → RequestId → ProviderHandle → Node → (offset limit : ℕ) → UnitCmd
  load_preview : Epoch → RequestId → ProviderHandle → Node → (read_limit : ℕ) → UnitCmd
  load_list_overview :
      Epoch → RequestId → ProviderHandle → Node → (item_cap read_limit max_concurrent : ℕ) → UnitCmd
  resolve_goto : Epoch → RequestId → ProviderHandle → NodeRef → UnitCmd
  open_unit : Epoch → RequestId → ProviderHandle → Node → UnitPurpose → UnitCmd
  show_unit : RestorableUnit → UnitPurpose → UnitCmd
  cancel_detail_fetch : UnitCmd
  notify : String → Severity → UnitCmd
