-- ===== src/Tests/Jobs.antt =====
-- Runs of the store of jobs: packages/synology-apm-repo-browser/src/synology_apm_repo/browser/core/app.
use apm_repo_sdk_python.Base.{
  ◌≡◌, refl, sym, ap, some-cancel, arith, false, [], ◌∷◌, none, nat_deceq, ℕ_discrete,
}
use apm_repo_sdk_python.Base.Text.{code_points}
use apm_repo_sdk_python.Base.Dict.{lookup, insert, without, contains}
use apm_repo_sdk_python.Base.Totals.{IsDistinct, total}
use apm_repo_sdk_python.Browser.App.Model.{
  JobStatus, Job, JobOutcome, ExportTarget, AppModel, AppMsg, AppCmd, QueuedExport, holds_slot,
  initial, name, jobs_occupy_slot,
}
use apm_repo_sdk_python.Browser.App.Progress.{Run, done, step, Run-started, releases}
use apm_repo_sdk_python.Browser.App.Queue.{place_in}
use apm_repo_sdk_python.Browser.App.Steps.{update-Handled, update-IsValid}
use apm_repo_sdk_python.Browser.App.Update.{
  update, is_queued, on_start_export, on_export_finished, promote_next_queued, first_queued,
  new_job, run_cmd, notify_outcome, export_queued_message,
}
use apm_repo_sdk_python.Browser.App.Valid.{IsValid, Handled}
use apm_repo_sdk_python.Browser.Digits.{decimal_text}
use apm_repo_sdk_python.Browser.Unit.Model.{Severity}
use apm_repo_sdk_python.Errors.{ok}
use apm_repo_sdk_python.Units.Node.{Node, RefKind, FileState, NodeRole}

abbrev folder : Node
folder = record {
  ref = record { repo_path = code_points "repo"; segments = []; kind = RefKind.canonical };
  name = "Inbox";
  is_leaf = false;
  kind = none;
  size = none;
  mtime = none;
  file_state = FileState.normal;
  leaf_kind = none;
  diagnostic = none;
  role = NodeRole.ordinary;
  degraded = none;
  columns = record {
    sender = none;
    email = none;
    event_start = none;
    event_end = none;
    recurrence = none;
  };
  export_name = none;
}

abbrev target : ExportTarget
target = ExportTarget.folder_export (record {
  repo = 1;
  catalog = 2;
  version = 3;
  force_raw = false;
  node = folder;
  name = "Inbox";
})

initial-IsValid : IsValid initial
unfolding IsDistinct lookup total
initial-IsValid = record {
  sound = record {
    distinct = tt;
    fresh = λ k le. refl;
    requested = λ k job e q. cc;
    recent = omega arith;
  };
  exclusive = omega arith;
  busy = λ w. w;
}

abbrev request : QueuedExport
request = record { target = target; dst = "/tmp/out"; sparse = false }

abbrev start : AppMsg
start = AppMsg.start_export target "/tmp/out" false

update-Handled_example : Handled (update initial start)
update-Handled_example = update-Handled initial start initial-IsValid tt

-- One export runs and another waits behind it.
abbrev started : AppModel
started = record initial { jobs = (1, new_job 1 target JobStatus.running) ∷ []; next_job_id = 2 }

abbrev queued : AppModel
queued = record started {
  jobs = (1, new_job 1 target JobStatus.running) ∷ (2, new_job 2 target JobStatus.queued) ∷ [];
  queued_requests = (2, request) ∷ [];
  next_job_id = 3;
}

start_one : update initial start ≡ ok (started, run_cmd 1 "job-1" request ∷ [])
unfolding update on_start_export name jobs_occupy_slot insert decimal_text ℕ_discrete
start_one = refl

start_two :
    update started start
    ≡ ok (queued, AppCmd.notify export_queued_message Severity.information none ∷ [])
unfolding update on_start_export name jobs_occupy_slot insert decimal_text ℕ_discrete
start_two = refl

queued-IsValid : IsValid queued
queued-IsValid =
    update-IsValid started queued start _
      (update-IsValid initial started start _ initial-IsValid tt start_one) tt start_two

abbrev outcome : JobOutcome
outcome = record {
  notify_message = "done";
  notify_severity = Severity.information;
  status_text = "done";
}

-- The first export ends, and the second is started with its own request.
abbrev promoted : AppModel
promoted = record queued {
  jobs = (2, new_job 2 target JobStatus.running) ∷ [];
  recent = record { id = 1; label = "export Inbox"; outcome = outcome } ∷ [];
  queued_requests = [];
}

finish_one :
    update queued (AppMsg.export_finished 1 outcome)
    ≡ ok (promoted, notify_outcome outcome ∷ run_cmd 2 "job-2" request ∷ [])
unfolding update on_export_finished promote_next_queued first_queued name insert lookup without
    contains decimal_text ℕ_discrete
finish_one = refl

finished-Run : Run queued promoted 1
unfolding releases lookup ℕ_discrete
finished-Run =
    step (AppMsg.export_finished 1 outcome) _
      (λ job e. ap (λ (j : Job). holds_slot j.status) (sym (some-cancel e))) finish_one done

Run-started_example : is_queued (new_job 2 target JobStatus.running).status ≡ false
unfolding lookup place_in ℕ_discrete
Run-started_example =
    Run-started 2 (new_job 2 target JobStatus.running) queued-IsValid (omega arith) finished-Run
      (omega arith) refl
