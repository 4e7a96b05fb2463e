-- ===== src/Browser/App/Progress.antt =====
-- core/app/update.py over time: each release of the slot moves the queued exports up, so one is off
-- the queue after as many releases as its place in it.
use Prim.Native.String.{String, len}
use mathlib.Core.Path.{subst}
use native.Mathlib.Nat.{le_refl, le_trans}
use apm_repo_sdk_python.Base.{
  ◌∙◌, sym, inl, inr, Option-cases, Bool-cases, ℕ, ◌+◌, ◌-◌, ◌≤◌, ◌<◌, ◌≡◌, refl, arith, Bool,
  false, ◌||◌, List, [], ◌∷◌, Option, none, some, ◌==◌, nat_deceq,
}
use apm_repo_sdk_python.Base.Dict.{lookup, insert}
use apm_repo_sdk_python.Browser.App.Model.{
  JobId, JobStatus, JobTexts, Job, JobOutcome, ExportTarget, AppModel, AppMsg, AppCmd,
  export_occupied,
}
use apm_repo_sdk_python.Browser.App.Queue.{
  place_in, place_in-idle, place_in-zero, place_in-insert_old, place_in-insert_new,
  place_in-without, place_in-promote,
}
use apm_repo_sdk_python.Browser.App.Steps.{Sent, update-IsValid, IsSound-verify, finished-IsSound}
use apm_repo_sdk_python.Browser.App.Update.{
  Outcome, is_queued, new_job, first_queued, without_job, record_finished, notify_outcome, update,
  on_start_export, on_export_progressed, on_export_finished, on_cancel_job_requested, promote,
  promote_next_queued, and_promoted, run_cmd,
}
use apm_repo_sdk_python.Browser.App.Valid.{IsSound, IsValid, first_queued-some}
use apm_repo_sdk_python.Browser.App.Promote.{promote-none, promote-some}
use apm_repo_sdk_python.Errors.{ok, ◌>>=◌, ok-cancel}

-- Job `k` is at a place of at most `p` in the model that is returned.
abbrev Moves : JobId → ℕ → Outcome → Type 0
Moves k p o =
    (r : AppModel × List AppCmd) × (o ≡ ok r) × (place_in k r.0.jobs ≤ p) × (k < r.0.next_job_id)

Moves-weaken : (k : JobId) (p q : ℕ) (o : Outcome) → p ≤ q → Moves k p o → Moves k q o
Moves-weaken k p q o h (r, e, place, known) = (r, e, le_trans place h, known)

-- An event that releases the slot.
unfoldable pub releases : AppModel → AppMsg → ℕ
releases m (AppMsg.export_finished k outcome) = elim (lookup k m.jobs) [ none ↦ 0 | some _ ↦ 1 ]
releases m AppMsg.verify_full_finished = 1
releases m _ = 0

and_promoted-Moves :
    (k : JobId) (p : ℕ) (cmds : List AppCmd) (m : AppModel) (c : Option AppCmd)
    → place_in k m.jobs ≤ p
    → k < m.next_job_id
    → Moves k p (and_promoted cmds (m, c))
and_promoted-Moves k p cmds m none h le = (_, refl, h, le)
and_promoted-Moves k p cmds m (some promoted) h le = (_, refl, h, le)

promote-Moves :
    (k : JobId) (cmds : List AppCmd) (m : AppModel)
    → IsSound m
    → k < m.next_job_id
    → Moves k (place_in k m.jobs - 1) (promote_next_queued m >>= and_promoted cmds)
promote-Moves k cmds m v le = elim (Option-cases (first_queued m.jobs)) [
  | inl idle ↦ rw (promote-none m idle) (
      and_promoted-Moves k (place_in k m.jobs - 1) cmds m none
        (omega (arith, place_in-idle k m.jobs idle)) le)
  | inr ((i, job), first) ↦
      let (found, queued) = first_queued-some m.jobs i job v.distinct first in
      elim (Option-cases (lookup i m.queued_requests)) [
        | inl missing ↦ absurd (v.requested i job found queued missing)
        | inr (request, e) ↦ rw (promote-some m i job request first e) (
            and_promoted-Moves k (place_in k m.jobs - 1) cmds (promote m i job request)
              (some (run_cmd i job.group request))
              (place_in-promote k i (record job { status = JobStatus.running }) job m.jobs
                v.distinct first refl)
              le)
      ]
]

module _ (m : AppModel) (v : IsValid m) (k : JobId) (known : k < m.next_job_id) where
  kept_place : place_in k m.jobs ≤ place_in k m.jobs
  kept_place = le_refl (place_in k m.jobs)

  start_export-Moves :
      (target : ExportTarget) (dst_text : String) (sparse : Bool)
      → Moves k (place_in k m.jobs) (on_start_export m target dst_text sparse)
  unfolding on_start_export
  start_export-Moves target dst_text sparse = elim (Bool-cases (len dst_text == 0)) [
    | inl e ↦ rw e (_, refl, kept_place, known)
    | inr e ↦ elim (Bool-cases (export_occupied m || m.verify_full_running)) [
      | inl blocked ↦
          rw (e, blocked) (_, refl, added (new_job m.next_job_id target JobStatus.queued), later)
      | inr free ↦
          rw (e, free) (_, refl, added (new_job m.next_job_id target JobStatus.running), later)
    ]
  ]
    where
      later : k < m.next_job_id + 1
      later = omega (arith, known)

      added : (job : Job) → place_in k (insert m.next_job_id job m.jobs) ≤ place_in k m.jobs
      added job =
          place_in-insert_new k m.next_job_id job m.jobs (v.sound.fresh m.next_job_id (le_refl _))
            (λ p. omega (arith, known, p))

  progressed-Moves :
      (i : JobId) (done : ℕ) (total : Option ℕ) (texts : JobTexts)
      → Moves k (place_in k m.jobs) (on_export_progressed m i done total texts)
  unfolding on_export_progressed
  progressed-Moves i done total texts = elim (Option-cases (lookup i m.jobs)) [
    | inl e ↦ rw (e, on_export_progressed) (_, refl, kept_place, known)
    | inr (job, e) ↦
        let new : Job = record job { done = done; total = total; texts = texts } in
        rw (e, on_export_progressed)
          (_, refl, place_in-insert_old k i new job m.jobs e (le_refl _), known)
  ]

  cancel-Moves : (i : JobId) → Moves k (place_in k m.jobs) (on_cancel_job_requested m i)
  unfolding on_cancel_job_requested
  cancel-Moves i = elim (Option-cases (lookup i m.jobs)) [
    | inl e ↦ rw (e, on_cancel_job_requested) (_, refl, kept_place, known)
    | inr (job, e) ↦
        let new : Job = record job { status = JobStatus.cancelling } in
        elim (Bool-cases (is_queued job.status)) [
          | inl q ↦
              rw (e, on_cancel_job_requested) (rw q (_, refl, place_in-without k i m.jobs, known))
          | inr q ↦
              rw (e, on_cancel_job_requested)
                (rw q (_, refl, place_in-insert_old k i new job m.jobs e (omega arith), known))
        ]
  ]

  finished-Moves_gone :
      (i : JobId) (outcome : JobOutcome)
      → lookup i m.jobs ≡ none
      → Moves k (place_in k m.jobs) (on_export_finished m i outcome)
  unfolding on_export_finished
  finished-Moves_gone i outcome e = rw (e, on_export_finished) (_, refl, kept_place, known)

  finished-Moves :
      (i : JobId) (outcome : JobOutcome) (job : Job)
      → lookup i m.jobs ≡ some job
      → Moves k (place_in k m.jobs - 1) (on_export_finished m i outcome)
  unfolding on_export_finished
  finished-Moves i outcome job e =
      let recorded = record_finished m i job.label outcome in
      let left : AppModel = record recorded { jobs = without_job recorded.jobs i } in
      let moved =
        promote-Moves k (notify_outcome outcome ∷ []) left (finished-IsSound m v i job outcome)
          known in
      rw (e, on_export_finished)
        (Moves-weaken k (place_in k left.jobs - 1) (place_in k m.jobs - 1) _
          (omega (arith, place_in-without k i m.jobs)) moved)

releases-gone :
    (m : AppModel) (i : JobId) (outcome : JobOutcome)
    → lookup i m.jobs ≡ none
    → releases m (AppMsg.export_finished i outcome) ≡ 0
unfolding releases
releases-gone m i outcome e = rw (e, releases) refl

releases-finished :
    (m : AppModel) (i : JobId) (outcome : JobOutcome) (job : Job)
    → lookup i m.jobs ≡ some job
    → releases m (AppMsg.export_finished i outcome) ≡ 1
unfolding releases
releases-finished m i outcome job e = rw (e, releases) refl

unmoved : (p : ℕ) → p ≤ p - 0
unmoved p = omega arith

-- An event moves a job up by one where it releases the slot, and never back.
update-Moves :
    (m : AppModel) (msg : AppMsg) (k : JobId)
    → IsValid m
    → k < m.next_job_id
    → Moves k (place_in k m.jobs - releases m msg) (update m msg)
unfolding update releases
update-Moves m (AppMsg.start_export target dst_text sparse) k v known =
    Moves-weaken k _ _ _ (unmoved _) (start_export-Moves m v k known target dst_text sparse)
update-Moves m (AppMsg.export_progressed i done total texts) k v known =
    Moves-weaken k _ _ _ (unmoved _) (progressed-Moves m v k known i done total texts)
update-Moves m (AppMsg.export_finished i outcome) k v known =
    elim (Option-cases (lookup i m.jobs)) [
      | inl e ↦
          Moves-weaken k _ _ _ (omega (arith, releases-gone m i outcome e))
            (finished-Moves_gone m v k known i outcome e)
      | inr (job, e) ↦
          Moves-weaken k _ _ _ (omega (arith, releases-finished m i outcome job e))
            (finished-Moves m v k known i outcome job e)
    ]
update-Moves m (AppMsg.cancel_job_requested i) k v known =
    Moves-weaken k _ _ _ (unmoved _) (cancel-Moves m v k known i)
update-Moves m AppMsg.verify_full_started k v known = (_, refl, unmoved _, known)
update-Moves m AppMsg.verify_full_finished k v known =
    promote-Moves k [] (record m { verify_full_running = false }) (IsSound-verify m false v.sound)
      known

-- A run of events as they are sent, with the number of those that release the slot.
pub data Run : AppModel → AppModel → ℕ → Type 0 where
  done : {m : AppModel} → Run m m 0
  step :
      {m n p : AppModel} {r : ℕ} (msg : AppMsg) (cmds : List AppCmd)
      → Sent m msg
      → update m msg ≡ ok (n, cmds)
      → Run n p r
      → Run m p (releases m msg + r)

Run-place :
    {m p : AppModel} {r : ℕ} (k : JobId)
    → IsValid m
    → k < m.next_job_id
    → Run m p r
    → place_in k p.jobs ≤ place_in k m.jobs - r
Run-place k v known done = omega arith
Run-place k v known (step {m = m} {r = r} msg cmds sent e run) =
    let (y, moved, up, later) = update-Moves m msg k v known in
    let also = ok-cancel (sym moved ∙ e) in
    let rest =
      Run-place k (update-IsValid m _ msg cmds v sent e)
        (subst (λ s. k < s.0.next_job_id) also later) run in
    let here = subst (λ s. place_in k s.0.jobs ≤ place_in k m.jobs - releases m msg) also up in
    omega (arith, rest, here)

-- From a valid model, a known export is no longer queued after as many releases of the slot as its
-- place in the queue, whatever events come between: it runs, is being cancelled, or is over.
pub Run-started :
    {m p : AppModel} {r : ℕ} (k : JobId) (job : Job)
    → IsValid m
    → k < m.next_job_id
    → Run m p r
    → place_in k m.jobs ≤ r
    → lookup k p.jobs ≡ some job
    → is_queued job.status ≡ false
Run-started k job v known run enough found =
    place_in-zero k job _ found (omega (arith, Run-place k v known run, enough))
