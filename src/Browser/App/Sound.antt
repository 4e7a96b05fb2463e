-- ===== src/Browser/App/Sound.antt =====
-- core/app/update.py: changes of the registry of jobs that keep it sound.
use apm_repo_sdk_python.Base.{
  some_none, ◌∙◌, sym, ap, some-cancel, ◌+◌, ◌≤◌, ◌≡◌, ◌≢◌, arith, true, List, [], ◌∷◌, none, some,
  length, nat_deceq, ℕ_discrete,
}
use apm_repo_sdk_python.Base.Dict.{
  Dict, lookup, insert, lookup-without, lookup-insert_hit, lookup-insert_miss,
}
use apm_repo_sdk_python.Base.Totals.{IsDistinct-insert, IsDistinct-without}
use apm_repo_sdk_python.Browser.App.Model.{JobId, Job, FinishedJob, QueuedExport, AppModel}
use apm_repo_sdk_python.Browser.App.Update.{is_queued, without_job}
use apm_repo_sdk_python.Browser.App.Valid.{IsSound}
use apm_repo_sdk_python.Browser.App.Promote.{
  IsFresh-insert_old, lookup-without_other, lookup-without_own,
}

module _ (m : AppModel) (v : IsSound m) where
  pub IsSound-insert_old :
      (k : JobId) (job old : Job)
      → lookup k m.jobs ≡ some old
      → (is_queued job.status ≡ true → is_queued old.status ≡ true)
      → IsSound (record m { jobs = insert k job m.jobs })
  IsSound-insert_old k job old found same = record {
    distinct = IsDistinct-insert k job m.jobs v.distinct;
    fresh = IsFresh-insert_old k job m.jobs m.next_job_id old v.fresh found;
    requested = λ j other e q. elim (ℕ_discrete k j) [
      | yes p ↦
          let new = some-cancel (sym (lookup-insert_hit k j job m.jobs p) ∙ e) in
          v.requested j old (ap (λ i. lookup i m.jobs) (sym p) ∙ found)
            (same (ap (λ (x : Job). is_queued x.status) new ∙ q))
      | no p ↦ v.requested j other (sym (lookup-insert_miss k j job m.jobs p) ∙ e) q
    ];
    recent = v.recent;
  }

  pub IsSound-insert_new :
      (job : Job) (requests : Dict JobId QueuedExport)
      → ((j : JobId) → lookup j m.queued_requests ≢ none → lookup j requests ≢ none)
      → (is_queued job.status ≡ true → lookup m.next_job_id requests ≢ none)
      → IsSound (record m {
        jobs = insert m.next_job_id job m.jobs;
        queued_requests = requests;
        next_job_id = m.next_job_id + 1;
      })
  IsSound-insert_new job requests kept added = record {
    distinct = IsDistinct-insert m.next_job_id job m.jobs v.distinct;
    fresh = λ j le.
        lookup-insert_miss m.next_job_id j job m.jobs (λ p. omega (arith, p, le))
        ∙ v.fresh j (omega (arith, le));
    requested = λ j other e q. elim (ℕ_discrete m.next_job_id j) [
      | yes p ↦
          let new = some-cancel (sym (lookup-insert_hit m.next_job_id j job m.jobs p) ∙ e) in
          λ gone.
            added (ap (λ (x : Job). is_queued x.status) new ∙ q)
              (ap (λ i. lookup i requests) p ∙ gone)
      | no p ↦
          kept j (v.requested j other (sym (lookup-insert_miss m.next_job_id j job m.jobs p) ∙ e) q)
    ];
    recent = v.recent;
  }

  pub IsSound-without :
      (k : JobId) (requests : Dict JobId QueuedExport) (recent : List FinishedJob)
      → ((j : JobId) → k ≢ j → lookup j requests ≡ lookup j m.queued_requests)
      → length recent ≤ 20
      → IsSound
          (record m { jobs = without_job m.jobs k; recent = recent; queued_requests = requests })
  IsSound-without k requests recent kept short = record {
    distinct = IsDistinct-without k m.jobs v.distinct;
    fresh = λ j le. ground (arith, lookup-without j (k ∷ []) m.jobs, v.fresh j le);
    requested = λ j other e q. elim (ℕ_discrete k j) [
      | yes p ↦ absurd (some_none (sym e ∙ lookup-without_own k j m.jobs p))
      | no p ↦ λ none_left.
          v.requested j other (sym (lookup-without_other k j m.jobs p) ∙ e) q
            (sym (kept j p) ∙ none_left)
    ];
    recent = short;
  }
