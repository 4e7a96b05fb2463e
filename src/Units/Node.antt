-- ===== src/Units/Node.antt =====
-- units/base.py: a node of a provider's tree, and units/node_ref.py: its address.
-- `details` and `handle` of a node are left out: the first is display only, the second opaque to
-- every caller but the provider that set it. A time is its number of seconds.
use Prim.Native.String.{String}
use apm_repo_sdk_python.Base.{ℕ, Bool, List, Option, DecEq, ℕ_discrete}
use apm_repo_sdk_python.Base.Text.{Text}

pub data RefKind : Type 0 where
  canonical raw human : RefKind

pub record NodeRef : Type 0 where
  pub repo_path : Text
  pub segments : List Text
  pub kind : RefKind

unfoldable pub NodeRef-discrete : Discrete NodeRef
NodeRef-discrete = hlevel ℕ_discrete

instance abbrev pub node_ref_deceq : DecEq NodeRef
unfolding NodeRef-discrete
node_ref_deceq = record { eq? = NodeRef-discrete }

pub data UnitKind : Type 0 where
  disk_image disk_filesystem disk_file file mail contact calendar_event : UnitKind
  drive_item site_item raw_object teams_chat_message category_group : UnitKind

pub data FileState : Type 0 where
  normal encrypted cloud_only : FileState

pub data NodeRole : Type 0 where
  ordinary list_overview flat_category : NodeRole

pub record ItemColumns : Type 0 where
  pub sender : Option String
  pub email : Option String
  pub event_start : Option ℕ
  pub event_end : Option ℕ
  pub recurrence : Option String

pub record Node : Type 0 where
  pub ref : NodeRef
  pub name : String
  pub is_leaf : Bool
  pub kind : Option UnitKind
  pub size : Option ℕ
  pub mtime : Option ℕ
  pub file_state : FileState
  pub leaf_kind : Option UnitKind
  pub diagnostic : Option String
  pub role : NodeRole
  pub degraded : Option String
  pub columns : ItemColumns
  pub export_name : Option String

-- A leaf with what reads its content, which is known by its identity alone.
pub record RestorableUnit : Type 0 where
  pub node : Node
  pub content : ℕ
