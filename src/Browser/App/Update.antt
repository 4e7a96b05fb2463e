-- ===== src/Browser/App/Update.antt =====
-- core/app/update.py: every handler of the store of the background jobs.
use Prim.Native.String.{String, len, ◌++◌ as append}
use apm_repo_sdk_python.Base.{
  ℕ, suc, ◌+◌, ◌-◌, Bool, true, false, ◌||◌, List, [], ◌∷◌, ◌++◌, Option, none, some, ltb, ◌==◌,
  if◌then◌else◌, length, drop, nat_deceq,
}
use apm_repo_sdk_python.Base.Dict.{Dict, lookup, insert, without}
use apm_repo_sdk_python.Browser.Digits.{decimal_text}
use apm_repo_sdk_python.Browser.Unit.Model.{Severity}
use apm_repo_sdk_python.Browser.App.Model.{
  JobId, max_recent, JobStatus, no_texts, JobTexts, Job, JobOutcome, ExportTarget, name,
  QueuedExport, FinishedJob, AppModel, export_occupied, AppMsg, AppCmd,
}
use apm_repo_sdk_python.Errors.{Result, ok, raise, Error, ◌>>=◌}

abbrev pub Outcome : Type 0
Outcome = Result (AppModel × List AppCmd)

abbrev pub export_no_destination_warning : String
export_no_destination_warning = "enter a destination path"

abbrev pub export_notify_title : String
export_notify_title = "Export"

abbrev pub export_queued_message : String
export_queued_message = "queued — will start once the current job finishes"

-- `_without`.
abbrev pub without_job : {A : Type 0} → Dict JobId A → JobId → Dict JobId A
without_job mapping job_id = without (job_id ∷ []) mapping

-- `recent[-20:]` where there are more.
abbrev pub cap_recent : List FinishedJob → List FinishedJob
cap_recent recent =
    if ltb max_recent (length recent) then drop (length recent - max_recent) recent else recent

abbrev pub record_finished : AppModel → JobId → String → JobOutcome → AppModel
record_finished model job_id label outcome = record model {
  recent =
      cap_recent (model.recent ++ (record { id = job_id; label = label; outcome = outcome } ∷ []));
}

abbrev pub notify_outcome : JobOutcome → AppCmd
notify_outcome outcome =
    AppCmd.notify outcome.notify_message outcome.notify_severity (some export_notify_title)

abbrev pub run_cmd : JobId → String → QueuedExport → AppCmd
run_cmd job_id group request =
    AppCmd.run_export job_id group request.target request.dst request.sparse

abbrev pub is_queued : JobStatus → Bool
is_queued JobStatus.running = false
is_queued JobStatus.queued = true
is_queued JobStatus.cancelling = false

-- The first job of the loop of `_promote_next_queued` that is queued.
unfoldable pub first_queued : Dict JobId Job → Option (JobId × Job)
first_queued [] = none
first_queued ((job_id, job) ∷ jobs) =
    let rest = first_queued jobs in if is_queued job.status then some (job_id, job) else rest

-- `model.queued_requests[job_id]`.
abbrev pub request_of : AppModel → JobId → Result QueuedExport
request_of model job_id = elim (lookup job_id model.queued_requests) [
  | none ↦ raise Error.key_error
  | some request ↦ ok request
]

abbrev pub promote : AppModel → JobId → Job → QueuedExport → AppModel
promote model job_id job request = record model {
  jobs = insert job_id (record job { status = JobStatus.running }) model.jobs;
  queued_requests = without_job model.queued_requests job_id;
}

unfoldable pub promote_next_queued : AppModel → Result (AppModel × Option AppCmd)
promote_next_queued model = elim (first_queued model.jobs) [
  | none ↦ ok (model, none)
  | some (job_id, job) ↦ do
    request ← request_of model job_id
    ok (promote model job_id job request, some (run_cmd job_id job.group request))
]

abbrev pub new_job : JobId → ExportTarget → JobStatus → Job
new_job job_id target status = record {
  id = job_id;
  label = append "export " (name target);
  group = append "job-" (decimal_text (suc job_id) job_id);
  done = 0;
  total = none;
  status = status;
  texts = no_texts;
}

unfoldable pub on_start_export : AppModel → ExportTarget → String → Bool → Outcome
on_start_export model target dst_text sparse =
    let job_id = model.next_job_id in
    let request : QueuedExport = record { target = target; dst = dst_text; sparse = sparse } in
    let waiting = new_job job_id target JobStatus.queued in
    let started = new_job job_id target JobStatus.running in
    if len dst_text == 0
    then ok (model, AppCmd.notify export_no_destination_warning Severity.warning none ∷ [])
    else if export_occupied model || model.verify_full_running
    then ok (
      record model {
        jobs = insert job_id waiting model.jobs;
        queued_requests = insert job_id request model.queued_requests;
        next_job_id = job_id + 1;
      },
      AppCmd.notify export_queued_message Severity.information none ∷ [],
    )
    else ok (
      record model { jobs = insert job_id started model.jobs; next_job_id = job_id + 1 },
      run_cmd job_id started.group request ∷ [],
    )

unfoldable pub on_export_progressed : AppModel → JobId → ℕ → Option ℕ → JobTexts → Outcome
on_export_progressed model job_id done total texts = elim (lookup job_id model.jobs) [
  | none ↦ ok (model, [])
  | some job ↦ ok (
    record model {
      jobs = insert job_id (record job { done = done; total = total; texts = texts }) model.jobs;
    },
    [],
  )
]

-- `(notify, promoted) if promoted is not None else (notify,)`, and the same without the notice.
abbrev pub and_promoted : List AppCmd → AppModel × Option AppCmd → Outcome
and_promoted cmds (model, none) = ok (model, cmds)
and_promoted cmds (model, some promoted) = ok (model, cmds ++ (promoted ∷ []))

unfoldable pub on_export_finished : AppModel → JobId → JobOutcome → Outcome
unfolding promote_next_queued
on_export_finished model job_id outcome = elim (lookup job_id model.jobs) [
  | none ↦ ok (model, [])
  | some job ↦
      let recorded = record_finished model job_id job.label outcome in
      promote_next_queued (record recorded { jobs = without_job recorded.jobs job_id })
      >>= and_promoted (notify_outcome outcome ∷ [])
]

abbrev pub cancelled_outcome : Job → JobOutcome
cancelled_outcome job = record {
  notify_message = append job.label ": cancelled (was queued, never started)";
  notify_severity = Severity.information;
  status_text = "[yellow]cancelled[/yellow] (was queued, never started)";
}

abbrev pub cancel_queued : AppModel → JobId → Job → AppModel
cancel_queued model job_id job =
    let recorded = record_finished model job_id job.label (cancelled_outcome job) in
    record recorded {
      jobs = without_job recorded.jobs job_id;
      queued_requests = without_job recorded.queued_requests job_id;
    }

unfoldable pub on_cancel_job_requested : AppModel → JobId → Outcome
on_cancel_job_requested model job_id = elim (lookup job_id model.jobs) [
  | none ↦ ok (model, [])
  | some job ↦
      if is_queued job.status
      then ok (cancel_queued model job_id job, notify_outcome (cancelled_outcome job) ∷ [])
      else ok (
        record model {
          jobs = insert job_id (record job { status = JobStatus.cancelling }) model.jobs;
        },
        AppCmd.cancel_group job.group ∷ [],
      )
]

unfoldable pub update : AppModel → AppMsg → Outcome
unfolding on_start_export on_export_progressed on_export_finished on_cancel_job_requested
    promote_next_queued
update model (AppMsg.start_export target dst_text sparse) =
    on_start_export model target dst_text sparse
update model (AppMsg.export_progressed job_id done total texts) =
    on_export_progressed model job_id done total texts
update model (AppMsg.export_finished job_id outcome) = on_export_finished model job_id outcome
update model (AppMsg.cancel_job_requested job_id) = on_cancel_job_requested model job_id
update model AppMsg.verify_full_started = ok (record model { verify_full_running = true }, [])
update model AppMsg.verify_full_finished =
    promote_next_queued (record model { verify_full_running = false }) >>= and_promoted []
