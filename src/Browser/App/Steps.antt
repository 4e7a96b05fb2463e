-- ===== src/Browser/App/Steps.antt =====
-- core/app/update.py: every event leaves a valid model, without an exception.
use Prim.Native.String.{String, len}
use mathlib.Core.Path.{subst}
use native.Mathlib.Nat.{le_refl}
use apm_repo_sdk_python.Base.{
  some_none, ◌∙◌, sym, ap, inl, inr, Option-cases, Bool-cases, ℕ, ◌+◌, ◌≡◌, refl, arith, Bool, true,
  false, ◌||◌, List, [], ◌∷◌, ◌++◌, Option, some, ◌==◌, nat_deceq,
}
use apm_repo_sdk_python.Base.Dict.{lookup, insert, lookup-insert_hit, lookup-insert_kept}
use apm_repo_sdk_python.Base.Totals.{
  total-insert_new, total-insert_old, total-member, total-without,
}
use apm_repo_sdk_python.Browser.App.Model.{
  JobId, JobStatus, JobTexts, Job, JobOutcome, FinishedJob, QueuedExport, ExportTarget, AppModel,
  AppMsg, AppCmd, holds_slot, export_occupied,
}
use apm_repo_sdk_python.Browser.App.Update.{
  is_queued, new_job, record_finished, notify_outcome, cancel_queued, cancelled_outcome,
  without_job, update, on_start_export, on_export_progressed, on_export_finished,
  on_cancel_job_requested,
}
use apm_repo_sdk_python.Browser.App.Valid.{
  one_if, holds, waits, IsSound, IsValid, Handled, blocked_lem, free_lem, queued_holds,
  not_queued_holds, unoccupied,
}
use apm_repo_sdk_python.Browser.App.Promote.{
  promote-Handled, cap_recent-length, lookup-without_other,
}
use apm_repo_sdk_python.Errors.{ok, ok-cancel}
use apm_repo_sdk_python.Browser.App.Sound.{IsSound-insert_old, IsSound-insert_new, IsSound-without}

-- What the screens and the effects guarantee of an event: an export that ends was started, a full
-- check starts while no job and no check runs, and ends while it runs.
abbrev pub Sent : AppModel → AppMsg → Type 0
Sent m (AppMsg.export_finished k outcome) =
    (job : Job) → lookup k m.jobs ≡ some job → holds_slot job.status ≡ true
Sent m AppMsg.verify_full_started = (export_occupied m ≡ false) × (m.verify_full_running ≡ false)
Sent m AppMsg.verify_full_finished = m.verify_full_running ≡ true
Sent m _ = Unit

module _ (m : AppModel) (v : IsValid m) where
  start_blocked :
      (target : ExportTarget) (dst_text : String) (sparse : Bool)
      → (export_occupied m || m.verify_full_running) ≡ true
      → IsValid (record m {
        jobs = insert m.next_job_id (new_job m.next_job_id target JobStatus.queued) m.jobs;
        queued_requests =
            insert m.next_job_id
              (record { target = target; dst = dst_text; sparse = sparse })
              m.queued_requests;
        next_job_id = m.next_job_id + 1;
      })
  start_blocked target dst_text sparse blocked =
      let k = m.next_job_id in
      let job = new_job k target JobStatus.queued in
      let request : QueuedExport = record { target = target; dst = dst_text; sparse = sparse } in
      let absent = v.sound.fresh k (le_refl k) in
      record {
        sound =
            IsSound-insert_new m v.sound job (insert k request m.queued_requests)
              (λ j h. lookup-insert_kept k j request m.queued_requests h)
              (λ q gone.
                some_none (sym (lookup-insert_hit k k request m.queued_requests refl) ∙ gone));
        exclusive = omega (arith, v.exclusive, total-insert_new holds k job m.jobs absent);
        busy = λ w. omega (
          arith,
          blocked_lem m.jobs m.verify_full_running blocked,
          total-insert_new holds k job m.jobs absent,
        );
      }

  start_free :
      (target : ExportTarget)
      → (export_occupied m || m.verify_full_running) ≡ false
      → IsValid (record m {
        jobs = insert m.next_job_id (new_job m.next_job_id target JobStatus.running) m.jobs;
        next_job_id = m.next_job_id + 1;
      })
  start_free target free =
      let k = m.next_job_id in
      let job = new_job k target JobStatus.running in
      let absent = v.sound.fresh k (le_refl k) in
      let idle = free_lem m.jobs m.verify_full_running free in
      record {
        sound = IsSound-insert_new m v.sound job m.queued_requests (λ j h. h) (λ q. cc);
        exclusive = omega (arith, idle, total-insert_new holds k job m.jobs absent);
        busy = λ w. omega (arith, total-insert_new holds k job m.jobs absent);
      }

  start_export-Handled :
      (target : ExportTarget) (dst_text : String) (sparse : Bool)
      → Handled (on_start_export m target dst_text sparse)
  unfolding on_start_export
  start_export-Handled target dst_text sparse = elim (Bool-cases (len dst_text == 0)) [
    | inl e ↦ rw e (_, refl, v)
    | inr e ↦ elim (Bool-cases (export_occupied m || m.verify_full_running)) [
      | inl blocked ↦ rw (e, blocked) (_, refl, start_blocked target dst_text sparse blocked)
      | inr free ↦ rw (e, free) (_, refl, start_free target free)
    ]
  ]

  progressed-Handled :
      (k : JobId) (done : ℕ) (total : Option ℕ) (texts : JobTexts)
      → Handled (on_export_progressed m k done total texts)
  unfolding on_export_progressed
  progressed-Handled k done total texts = elim (Option-cases (lookup k m.jobs)) [
    | inl e ↦ rw (e, on_export_progressed) (_, refl, v)
    | inr (job, e) ↦
        let new : Job = record job { done = done; total = total; texts = texts } in
        rw (e, on_export_progressed)
          (
            _,
            refl,
            record {
              sound = IsSound-insert_old m v.sound k new job e (λ q. q);
              exclusive = omega (arith, v.exclusive, total-insert_old holds k new job m.jobs e);
              busy = λ w. omega (
                arith,
                w,
                v.busy,
                total-insert_old holds k new job m.jobs e,
                total-insert_old waits k new job m.jobs e,
              );
            },
          )
  ]

  abbrev history : JobId → Job → JobOutcome → List FinishedJob
  history k job outcome = m.recent ++ (record { id = k; label = job.label; outcome = outcome } ∷ [])

  abbrev finished : JobId → Job → JobOutcome → AppModel
  finished k job outcome =
      let recorded = record_finished m k job.label outcome in
      record recorded { jobs = without_job recorded.jobs k }

  pub finished-IsSound :
      (k : JobId) (job : Job) (outcome : JobOutcome) → IsSound (finished k job outcome)
  finished-IsSound k job outcome =
      IsSound-without m v.sound k m.queued_requests _ (λ j p. refl)
        (cap_recent-length (history k job outcome))

  holds-one : (job : Job) → holds_slot job.status ≡ true → holds job ≡ 1
  holds-one job h = ap one_if h

  queued_cancelled :
      (k : JobId) (job : Job)
      → lookup k m.jobs ≡ some job
      → is_queued job.status ≡ true
      → IsValid (cancel_queued m k job)
  queued_cancelled k job e q =
      let held = total-without holds k job m.jobs v.sound.distinct e in
      let waited = total-without waits k job m.jobs v.sound.distinct e in
      record {
        sound =
            IsSound-without m v.sound k (without_job m.queued_requests k) _
              (λ j p. lookup-without_other k j m.queued_requests p)
              (cap_recent-length (history k job (cancelled_outcome job)));
        exclusive = omega (arith, v.exclusive, held);
        busy = λ w. omega (arith, w, v.busy, waited, held, queued_holds job.status q);
      }

  running_cancelled :
      (k : JobId) (job : Job)
      → lookup k m.jobs ≡ some job
      → is_queued job.status ≡ false
      → IsValid (record m { jobs = insert k (record job { status = JobStatus.cancelling }) m.jobs })
  running_cancelled k job e q =
      let new : Job = record job { status = JobStatus.cancelling } in
      let held = total-insert_old holds k new job m.jobs e in
      let one = not_queued_holds job.status q in
      record {
        sound = IsSound-insert_old m v.sound k new job e (λ h. cc);
        exclusive = omega (arith, v.exclusive, held, one);
        busy = λ w. omega (arith, held, one, total-member holds k job m.jobs e);
      }

  finished-Handled :
      (k : JobId) (outcome : JobOutcome)
      → Sent m (AppMsg.export_finished k outcome)
      → Handled (on_export_finished m k outcome)
  unfolding on_export_finished
  finished-Handled k outcome sent = elim (Option-cases (lookup k m.jobs)) [
    | inl e ↦ rw (e, on_export_finished) (_, refl, v)
    | inr (job, e) ↦
        let held = holds-one job (sent job e) in
        let kept = total-without holds k job m.jobs v.sound.distinct e in
        rw (e, on_export_finished)
          (promote-Handled (finished k job outcome) (notify_outcome outcome ∷ [])
            (finished-IsSound k job outcome) (omega (arith, v.exclusive, held, kept)))
  ]

  cancel-Handled : (k : JobId) → Handled (on_cancel_job_requested m k)
  unfolding on_cancel_job_requested
  cancel-Handled k = elim (Option-cases (lookup k m.jobs)) [
    | inl e ↦ rw (e, on_cancel_job_requested) (_, refl, v)
    | inr (job, e) ↦ elim (Bool-cases (is_queued job.status)) [
      | inl q ↦ rw (e, on_cancel_job_requested) (rw q (_, refl, queued_cancelled k job e q))
      | inr q ↦ rw (e, on_cancel_job_requested) (rw q (_, refl, running_cancelled k job e q))
    ]
  ]

pub IsSound-verify :
    (m : AppModel) (running : Bool)
    → IsSound m
    → IsSound (record m { verify_full_running = running })
IsSound-verify m running v = record {
  distinct = v.distinct;
  fresh = v.fresh;
  requested = v.requested;
  recent = v.recent;
}

-- An event that is sent as the screens and effects send it is handled without an exception, and
-- leaves a valid model: at most one export or full check holds the slot, every queued export has its
-- request, and none is queued while the slot is free.
pub update-Handled : (m : AppModel) (msg : AppMsg) → IsValid m → Sent m msg → Handled (update m msg)
unfolding update
update-Handled m (AppMsg.start_export target dst_text sparse) v sent =
    start_export-Handled m v target dst_text sparse
update-Handled m (AppMsg.export_progressed k done total texts) v sent =
    progressed-Handled m v k done total texts
update-Handled m (AppMsg.export_finished k outcome) v sent = finished-Handled m v k outcome sent
update-Handled m (AppMsg.cancel_job_requested k) v sent = cancel-Handled m v k
update-Handled m AppMsg.verify_full_started v sent = (
  _,
  refl,
  record {
    sound = IsSound-verify m true v.sound;
    exclusive = omega (arith, unoccupied m.jobs sent.0);
    busy = λ w. omega arith;
  },
)
update-Handled m AppMsg.verify_full_finished v sent =
    promote-Handled (record m { verify_full_running = false }) [] (IsSound-verify m false v.sound)
      (omega (arith, v.exclusive, ap one_if sent))

pub update-IsValid :
    (m n : AppModel) (msg : AppMsg) (cmds : List AppCmd)
    → IsValid m
    → Sent m msg
    → update m msg ≡ ok (n, cmds)
    → IsValid n
update-IsValid m n msg cmds v sent e =
    let (r, handled, valid) = update-Handled m msg v sent in
    subst (λ s. IsValid s.0) (ok-cancel (sym handled ∙ e)) valid
