-- ===== src/Browser/App/Model.antt =====
-- core/app/model.py, msg.py and cmd.py: the background jobs, the events that their store handles and
-- the effects that it asks for. The live objects that a folder export carries are known by their
-- identity; a path is the text that it is made from. A job's display texts are one record.
use Prim.Native.String.{String}
use apm_repo_sdk_python.Base.{ℕ, Bool, false, true, ◌||◌, List, [], ◌∷◌, Option}
use apm_repo_sdk_python.Base.Dict.{Dict}
use apm_repo_sdk_python.Browser.Unit.Model.{Severity}
use apm_repo_sdk_python.Units.Node.{Node, RestorableUnit}

abbrev pub JobId : Type 0
JobId = ℕ

abbrev pub max_recent : ℕ
max_recent = 20

pub data JobStatus : Type 0 where
  running queued cancelling : JobStatus

-- What the effect that drives a job formats: `size_text` to `elapsed_text`, `position` and `item`.
pub record JobTexts : Type 0 where
  pub size_text : String
  pub rate_text : String
  pub eta_text : String
  pub elapsed_text : String
  pub position : String
  pub item : String

abbrev pub no_texts : JobTexts
no_texts = record {
  size_text = "";
  rate_text = "";
  eta_text = "";
  elapsed_text = "";
  position = "";
  item = "";
}

pub record Job : Type 0 where
  pub id : JobId
  pub label : String
  pub group : String
  pub done : ℕ
  pub total : Option ℕ
  pub status : JobStatus
  pub texts : JobTexts

pub record JobOutcome : Type 0 where
  pub notify_message : String
  pub notify_severity : Severity
  pub status_text : String

pub record FolderExport : Type 0 where
  pub repo : ℕ
  pub catalog : ℕ
  pub version : ℕ
  pub force_raw : Bool
  pub node : Node
  pub name : String

pub data ExportTarget : Type 0 where
  restorable_unit : RestorableUnit → ExportTarget
  folder_export : FolderExport → ExportTarget

-- `target.name`.
unfoldable pub name : ExportTarget → String
name (ExportTarget.restorable_unit u) = u.node.name
name (ExportTarget.folder_export f) = f.name

pub record QueuedExport : Type 0 where
  pub target : ExportTarget
  pub dst : String
  pub sparse : Bool

pub record FinishedJob : Type 0 where
  pub id : JobId
  pub label : String
  pub outcome : JobOutcome

pub record AppModel : Type 0 where
  pub jobs : Dict JobId Job
  pub recent : List FinishedJob
  pub next_job_id : JobId
  pub queued_requests : Dict JobId QueuedExport
  pub verify_full_running : Bool

abbrev pub initial : AppModel
initial = record {
  jobs = [];
  recent = [];
  next_job_id = 1;
  queued_requests = [];
  verify_full_running = false;
}

-- `status in (RUNNING, CANCELLING)`.
abbrev pub holds_slot : JobStatus → Bool
holds_slot JobStatus.running = true
holds_slot JobStatus.queued = false
holds_slot JobStatus.cancelling = true

unfoldable pub jobs_occupy_slot : Dict JobId Job → Bool
jobs_occupy_slot [] = false
jobs_occupy_slot ((_, job) ∷ jobs) = holds_slot job.status || jobs_occupy_slot jobs

abbrev pub export_occupied : AppModel → Bool
export_occupied m = jobs_occupy_slot m.jobs

pub data AppMsg : Type 0 where
  start_export : ExportTarget → (dst_text : String) → (sparse : Bool) → AppMsg
  export_progressed : JobId → (done : ℕ) → (total : Option ℕ) → JobTexts → AppMsg
  export_finished : JobId → JobOutcome → AppMsg
  cancel_job_requested : JobId → AppMsg
  verify_full_started verify_full_finished : AppMsg

pub data AppCmd : Type 0 where
  run_export : JobId → (group : String) → ExportTarget → (dst : String) → (sparse : Bool) → AppCmd
  cancel_group : String → AppCmd
  notify : String → Severity → (title : Option String) → AppCmd
