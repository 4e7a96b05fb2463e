-- ===== src/Browser/App/Valid.antt =====
-- What holds of every state of the store of jobs, and the promotion of a queued job.
use mathlib.Core.Path.{subst}
use apm_repo_sdk_python.Base.{
  some_none, ◌⊎◌, if_pos, if_neg, ◌∙◌, sym, ap, inl, inr, some-cancel, ℕ, ◌+◌, ◌≤◌, ◌<◌, ◌≡◌, ◌≢◌,
  refl, arith, Bool, true, false, ◌||◌, List, [], ◌∷◌, Option, none, some, length, ltb,
  if◌then◌else◌, nat_deceq, ℕ_discrete,
}
use apm_repo_sdk_python.Base.Dict.{Dict, lookup}
use apm_repo_sdk_python.Base.Totals.{IsDistinct, total}
use apm_repo_sdk_python.Browser.App.Model.{
  JobId, JobStatus, Job, QueuedExport, AppModel, AppCmd, holds_slot, jobs_occupy_slot,
}
use apm_repo_sdk_python.Browser.App.Update.{Outcome, is_queued, first_queued}
use apm_repo_sdk_python.Errors.{ok}

abbrev pub one_if : Bool → ℕ
one_if true = 1
one_if false = 0

-- A job that holds the slot, and one that waits for it.
abbrev pub holds : Job → ℕ
holds job = one_if (holds_slot job.status)

abbrev pub waits : Job → ℕ
waits job = one_if (is_queued job.status)

abbrev pub holding : Dict JobId Job → ℕ
holding jobs = total holds jobs

abbrev pub waiting : Dict JobId Job → ℕ
waiting jobs = total waits jobs

-- No number that is still to be given out names a job.
abbrev pub IsFresh : Dict JobId Job → JobId → Type 0
IsFresh jobs next = (k : JobId) → next ≤ k → lookup k jobs ≡ none

-- Every queued job has its request.
abbrev pub IsRequested : Dict JobId Job → Dict JobId QueuedExport → Type 0
IsRequested jobs requests =
    (k : JobId) (job : Job)
    → lookup k jobs ≡ some job
    → is_queued job.status ≡ true
    → lookup k requests ≢ none

-- The registry without what the slot asks for.
pub record IsSound (m : AppModel) : Type 0 where
  pub distinct : IsDistinct m.jobs
  pub fresh : IsFresh m.jobs m.next_job_id
  pub requested : IsRequested m.jobs m.queued_requests
  pub recent : length m.recent ≤ 20

-- At most one job or check holds the slot, and no job waits while it is free.
pub record IsValid (m : AppModel) : Type 0 where
  pub sound : IsSound m
  pub exclusive : holding m.jobs + one_if m.verify_full_running ≤ 1
  pub busy : 0 < waiting m.jobs → 0 < holding m.jobs + one_if m.verify_full_running

-- No exception, and a valid model.
abbrev pub Handled : Outcome → Type 0
Handled o = (r : AppModel × List AppCmd) × (o ≡ ok r) × IsValid r.0

pub not_queued_holds : (s : JobStatus) → is_queued s ≡ false → one_if (holds_slot s) ≡ 1
not_queued_holds JobStatus.running h = refl
not_queued_holds JobStatus.queued h = cc
not_queued_holds JobStatus.cancelling h = refl

pub queued_holds : (s : JobStatus) → is_queued s ≡ true → one_if (holds_slot s) ≡ 0
queued_holds JobStatus.running h = cc
queued_holds JobStatus.queued h = refl
queued_holds JobStatus.cancelling h = cc

occupied_step :
    (s : JobStatus) (n : ℕ) → (holds_slot s || ltb 0 n) ≡ ltb 0 (one_if (holds_slot s) + n)
occupied_step JobStatus.running n = ground arith
occupied_step JobStatus.queued n = ground arith
occupied_step JobStatus.cancelling n = ground arith

pub occupied_lem : (jobs : Dict JobId Job) → jobs_occupy_slot jobs ≡ ltb 0 (holding jobs)
unfolding jobs_occupy_slot total
occupied_lem [] = refl
occupied_lem ((k, job) ∷ jobs) =
    ap (λ b. holds_slot job.status || b) (occupied_lem jobs)
    ∙ occupied_step job.status (holding jobs)

busy_step : (n : ℕ) (b : Bool) → (ltb 0 n || b) ≡ true → 0 < n + one_if b
busy_step n true h = omega arith
busy_step n false h = ground (arith, h)

free_step : (n : ℕ) (b : Bool) → (ltb 0 n || b) ≡ false → n + one_if b ≡ 0
free_step n true h = ground (arith, h)
free_step n false h = ground (arith, h)

-- The test that holds an export back, as the count of what holds the slot.
pub blocked_lem :
    (jobs : Dict JobId Job) (verifying : Bool)
    → (jobs_occupy_slot jobs || verifying) ≡ true
    → 0 < holding jobs + one_if verifying
blocked_lem jobs verifying h =
    busy_step (holding jobs) verifying (sym (ap (λ b. b || verifying) (occupied_lem jobs)) ∙ h)

pub free_lem :
    (jobs : Dict JobId Job) (verifying : Bool)
    → (jobs_occupy_slot jobs || verifying) ≡ false
    → holding jobs + one_if verifying ≡ 0
free_lem jobs verifying h =
    free_step (holding jobs) verifying (sym (ap (λ b. b || verifying) (occupied_lem jobs)) ∙ h)

pub unoccupied : (jobs : Dict JobId Job) → jobs_occupy_slot jobs ≡ false → holding jobs ≡ 0
unoccupied jobs h = omega (arith, free_lem jobs false (ap (λ b. b || false) h))

-- The two ways in which the search goes on.
pub if_none {ℓ} :
    {A : Type ℓ} (b : Bool) (x : A) (r : Option A)
    → (if b then some x else r) ≡ none
    → (b ≡ false) × (r ≡ none)
if_none true x r h = cc
if_none false x r h = (refl, h)

pub if_some {ℓ} :
    {A : Type ℓ} (b : Bool) (x y : A) (r : Option A)
    → (if b then some x else r) ≡ some y
    → ((b ≡ true) × (x ≡ y)) ⊎ ((b ≡ false) × (r ≡ some y))
if_some true x y r h = inl (refl, some-cancel h)
if_some false x y r h = inr (refl, h)

pub first_queued-none : (jobs : Dict JobId Job) → first_queued jobs ≡ none → waiting jobs ≡ 0
unfolding first_queued total
first_queued-none [] h = refl
first_queued-none ((k, job) ∷ jobs) h =
    let (running, rest) = if_none (is_queued job.status) (k, job) (first_queued jobs) h in
    rw running (omega (arith, first_queued-none jobs rest))

pub first_queued-some :
    (jobs : Dict JobId Job) (k : JobId) (job : Job)
    → IsDistinct jobs
    → first_queued jobs ≡ some (k, job)
    → (lookup k jobs ≡ some job) × (is_queued job.status ≡ true)
unfolding first_queued lookup IsDistinct
first_queued-some [] k job d h = cc
first_queued-some ((j, other) ∷ jobs) k job d h =
    elim (if_some (is_queued other.status) (j, other) (k, job) (first_queued jobs) h) [
      | inl (queued, same) ↦ (
        if_pos (ℕ_discrete j k) (ap (λ x. x.0) same) (some other) (lookup k jobs)
            ∙ ap (λ x. some x.1) same,
        sym (ap (λ x. is_queued x.1.status) same) ∙ queued,
      )
      | inr (_, rest) ↦
          let (found, queued) = first_queued-some jobs k job d.1 rest in
          (
            if_neg (ℕ_discrete j k)
                  (λ p. some_none (sym found ∙ subst (λ x. lookup x jobs ≡ none) p d.0))
                  (some other) (lookup k jobs)
                ∙ found,
            queued,
          )
    ]
