-- ===== src/Browser/App/Promote.antt =====
-- core/app/update.py: the promotion of a queued job, and the jobs left after a change.
use apm_repo_sdk_python.Base.{
  some_none, if_pos, if_neg, ◌∙◌, sym, ap, inl, inr, some-cancel, Option-cases, ◌+◌, ◌-◌, ◌≤◌, ◌≡◌,
  ◌≢◌, refl, arith, true, List, [], ◌∷◌, Option, none, some, length, length-drop, nat_deceq,
  ℕ_discrete,
}
use apm_repo_sdk_python.Base.Dict.{
  Dict, lookup, insert, without, lookup-without, lookup-insert_hit, lookup-insert_miss, contains,
}
use apm_repo_sdk_python.Base.Totals.{IsDistinct-insert, total-insert_old}
use apm_repo_sdk_python.Browser.App.Model.{
  JobId, JobStatus, Job, FinishedJob, QueuedExport, AppModel, AppCmd,
}
use apm_repo_sdk_python.Browser.App.Update.{
  is_queued, first_queued, promote, promote_next_queued, run_cmd, cap_recent, request_of,
  and_promoted,
}
use apm_repo_sdk_python.Errors.{ok, ◌>>=◌}
use apm_repo_sdk_python.Browser.App.Valid.{
  IsSound, IsValid, one_if, holds, holding, IsFresh, Handled, queued_holds, first_queued-none,
  first_queued-some,
}

pub cap_recent-length : (recent : List FinishedJob) → length (cap_recent recent) ≤ 20
cap_recent-length recent = ground (arith, length-drop (length recent - 20) recent)

pub promote-none :
    (m : AppModel) → first_queued m.jobs ≡ none → promote_next_queued m ≡ ok (m, none)
unfolding promote_next_queued
promote-none m e = rw (e, promote_next_queued) refl

pub promote-some :
    (m : AppModel) (k : JobId) (job : Job) (request : QueuedExport)
    → first_queued m.jobs ≡ some (k, job)
    → lookup k m.queued_requests ≡ some request
    → promote_next_queued m ≡ ok (promote m k job request, some (run_cmd k job.group request))
unfolding promote_next_queued
promote-some m k job request e f = rw (e, promote_next_queued) (rw (f, request_of) refl)

pub IsFresh-insert_old :
    (k : JobId) (job : Job) (jobs : Dict JobId Job) (next : JobId) (old : Job)
    → IsFresh jobs next
    → lookup k jobs ≡ some old
    → IsFresh (insert k job jobs) next
IsFresh-insert_old k job jobs next old h found j le = elim (ℕ_discrete k j) [
  | yes p ↦ absurd (some_none (sym found ∙ (ap (λ i. lookup i jobs) p ∙ h j le)))
  | no p ↦ lookup-insert_miss k j job jobs p ∙ h j le
]

pub lookup-without_other :
    {A : Type 0} (k j : JobId) (m : Dict JobId A)
    → k ≢ j
    → lookup j (without (k ∷ []) m) ≡ lookup j m
unfolding contains
lookup-without_other k j m p = lookup-without j (k ∷ []) m ∙ rw (if_neg (ℕ_discrete k j) p) refl

pub lookup-without_own :
    {A : Type 0} (k j : JobId) (m : Dict JobId A) → k ≡ j → lookup j (without (k ∷ []) m) ≡ none
unfolding contains
lookup-without_own k j m p = lookup-without j (k ∷ []) m ∙ rw (if_pos (ℕ_discrete k j) p) refl

running_queued :
    (job other : Job)
    → record job { status = JobStatus.running } ≡ other
    → is_queued other.status ≡ true
    → ⊥
running_queued job other same queued = cc (ap (λ (j : Job). is_queued j.status) same ∙ queued)

-- The job that is started holds the slot.
promote-holding :
    (m : AppModel) (k : JobId) (job : Job) (request : QueuedExport)
    → lookup k m.jobs ≡ some job
    → is_queued job.status ≡ true
    → holding (promote m k job request).jobs ≡ holding m.jobs + 1
promote-holding m k job request found queued = omega (
  arith,
  queued_holds job.status queued,
  total-insert_old holds k (record job { status = JobStatus.running }) job m.jobs found,
)

promote-IsSound :
    (m : AppModel) (k : JobId) (job : Job) (request : QueuedExport)
    → IsSound m
    → lookup k m.jobs ≡ some job
    → IsSound (promote m k job request)
promote-IsSound m k job request v found = record {
  distinct = IsDistinct-insert k (record job { status = JobStatus.running }) m.jobs v.distinct;
  fresh =
      IsFresh-insert_old k (record job { status = JobStatus.running }) m.jobs m.next_job_id job
        v.fresh found;
  requested = λ j other e q. elim (ℕ_discrete k j) [
    | yes p ↦ absurd (
        running_queued job other
          (some-cancel
            (sym (lookup-insert_hit k j (record job { status = JobStatus.running }) m.jobs p) ∙ e))
          q)
    | no p ↦ λ gone.
        v.requested j other
          (sym (lookup-insert_miss k j (record job { status = JobStatus.running }) m.jobs p) ∙ e) q
          (sym (lookup-without_other k j m.queued_requests p) ∙ gone)
  ];
  recent = v.recent;
}

-- The slot of a sound registry is free: the first queued job is started, and the model is valid.
pub promote_lem :
    (m : AppModel)
    → IsSound m
    → holding m.jobs + one_if m.verify_full_running ≡ 0
    → (r : AppModel × Option AppCmd) × (promote_next_queued m ≡ ok r) × IsValid r.0
promote_lem m v free = elim (Option-cases (first_queued m.jobs)) [
  | inl idle ↦ (
    (m, none),
    promote-none m idle,
    record {
      sound = v;
      exclusive = omega (arith, free);
      busy = λ w. absurd (omega (arith, w, first_queued-none m.jobs idle));
    },
  )
  | inr ((k, job), first) ↦
      let (found, queued) = first_queued-some m.jobs k job v.distinct first in
      elim (Option-cases (lookup k m.queued_requests)) [
        | inl missing ↦ absurd (v.requested k job found queued missing)
        | inr (request, e) ↦ (
          (promote m k job request, some (run_cmd k job.group request)),
          promote-some m k job request first e,
          record {
            sound = promote-IsSound m k job request v found;
            exclusive = omega (arith, free, promote-holding m k job request found queued);
            busy = λ w. omega (arith, free, promote-holding m k job request found queued);
          },
        )
      ]
]

-- What follows of a handler once a job may have been promoted.
and_promoted-Handled :
    (cmds : List AppCmd) (m : AppModel) (c : Option AppCmd)
    → IsValid m
    → Handled (and_promoted cmds (m, c))
and_promoted-Handled cmds m none v = (_, refl, v)
and_promoted-Handled cmds m (some promoted) v = (_, refl, v)

pub promote-Handled :
    (m : AppModel) (cmds : List AppCmd)
    → IsSound m
    → holding m.jobs + one_if m.verify_full_running ≡ 0
    → Handled (promote_next_queued m >>= and_promoted cmds)
promote-Handled m cmds v free =
    let (r, e, valid) = promote_lem m v free in rw e (and_promoted-Handled cmds r.0 r.1 valid)
