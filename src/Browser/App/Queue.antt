-- ===== src/Browser/App/Queue.antt =====
-- core/app/update.py over time: a queued export moves up with every release of the slot, and is off
-- the queue after as many releases as its place in it.
use mathlib.Core.Path.{subst}
use native.Mathlib.Nat.{le_refl, le_trans}
use apm_repo_sdk_python.Base.{
  some_none, if_pos, if_neg, ite, ◌∙◌, sym, ap, inl, inr, some-cancel, ℕ, ◌+◌, ◌-◌, ◌≤◌, ◌≡◌, ◌≢◌,
  refl, arith, Bool, true, false, [], ◌∷◌, none, some, ◌==◌, if◌then◌else◌, nat_deceq, ℕ_discrete,
}
use apm_repo_sdk_python.Base.Dict.{Dict, lookup, insert, without, contains}
use apm_repo_sdk_python.Base.Totals.{IsDistinct}
use apm_repo_sdk_python.Browser.App.Model.{JobId, Job}
use apm_repo_sdk_python.Browser.App.Update.{is_queued, first_queued, without_job}
use apm_repo_sdk_python.Browser.App.Valid.{waits, first_queued-some, if_none, if_some, one_if}
use apm_repo_sdk_python.Browser.App.Promote.{lookup-without_own}

-- The place after one more job: none behind a job that is not waited for.
abbrev pub behind : ℕ → ℕ → ℕ
behind one place = if place == 0 then 0 else one + place

-- The place of job `k` in the queue, counted from 1; 0 where it is not queued.
unfoldable pub place_in : JobId → Dict JobId Job → ℕ
place_in k [] = 0
place_in k ((j, job) ∷ jobs) =
    ite (ℕ_discrete j k) (waits job) (behind (waits job) (place_in k jobs))

-- The place seen from the head of the registry.
abbrev seen : JobId → JobId → ℕ → ℕ → ℕ
seen j k one place = ite (ℕ_discrete j k) one (behind one place)

seen-hit : (j k one place : ℕ) → j ≡ k → seen j k one place ≡ one
seen-hit j k one place e = if_pos (ℕ_discrete j k) e one (behind one place)

seen-miss : (j k one place : ℕ) → j ≢ k → seen j k one place ≡ behind one place
seen-miss j k one place e = if_neg (ℕ_discrete j k) e one (behind one place)

seen_mono : (j k one more p q : ℕ) → one ≤ more → p ≤ q → seen j k one p ≤ seen j k more q
seen_mono j k one more p q h le = elim (ℕ_discrete j k) [
  | yes e ↦ omega (arith, seen-hit j k one p e, seen-hit j k more q e, h)
  | no e ↦ ground (arith, seen-miss j k one p e, seen-miss j k more q e, h, le)
]

-- A head that is not waited for, or no longer.
seen-idle : (j k one p q : ℕ) → one ≡ 0 → p ≤ q - 1 → seen j k one p ≤ seen j k one q - 1
seen-idle j k one p q h le = elim (ℕ_discrete j k) [
  | yes e ↦ omega (arith, seen-hit j k one p e, h)
  | no e ↦ ground (arith, seen-miss j k one p e, seen-miss j k one q e, h, le)
]

seen-started : (j k one more p : ℕ) → one ≡ 0 → more ≡ 1 → seen j k one p ≤ seen j k more p - 1
seen-started j k one more p h h' = elim (ℕ_discrete j k) [
  | yes e ↦ omega (arith, seen-hit j k one p e, h)
  | no e ↦ ground (arith, seen-miss j k one p e, seen-miss j k more p e, h, h')
]

place_in-absent : (k : JobId) (jobs : Dict JobId Job) → lookup k jobs ≡ none → place_in k jobs ≡ 0
unfolding place_in lookup
place_in-absent k [] h = refl
place_in-absent k ((j, job) ∷ jobs) h = elim (ℕ_discrete j k) [
  | yes e ↦ absurd (some_none (sym (if_pos (ℕ_discrete j k) e (some job) (lookup k jobs)) ∙ h))
  | no e ↦
      let absent = sym (if_neg (ℕ_discrete j k) e (some job) (lookup k jobs)) ∙ h in
      rw (if_neg (ℕ_discrete j k) e, place_in-absent k jobs absent) refl
]

-- A job is replaced by one that waits no more than it does.
pub place_in-insert_old :
    (k i : JobId) (job old : Job) (jobs : Dict JobId Job)
    → lookup i jobs ≡ some old
    → waits job ≤ waits old
    → place_in k (insert i job jobs) ≤ place_in k jobs
unfolding place_in insert lookup
place_in-insert_old k i job old [] found h = cc
place_in-insert_old k i job old ((j, other) ∷ jobs) found h = elim (ℕ_discrete j i) [
  | yes p ↦
      let same =
        some-cancel (sym (if_pos (ℕ_discrete j i) p (some other) (lookup i jobs)) ∙ found) in
      rw (if_pos (ℕ_discrete j i) p) (
        subst
          (λ x. seen x k (waits job) (place_in k jobs) ≤ seen j k (waits other) (place_in k jobs)) p
          (seen_mono j k (waits job) (waits other) (place_in k jobs) (place_in k jobs)
            (subst (λ x. waits job ≤ waits x) (sym same) h) (le_refl _)))
  | no p ↦
      let later = sym (if_neg (ℕ_discrete j i) p (some other) (lookup i jobs)) ∙ found in
      rw (if_neg (ℕ_discrete j i) p) (
        seen_mono j k (waits other) (waits other) _ _ (le_refl _)
          (place_in-insert_old k i job old jobs later h))
]

pub place_in-insert_new :
    (k i : JobId) (job : Job) (jobs : Dict JobId Job)
    → lookup i jobs ≡ none
    → i ≢ k
    → place_in k (insert i job jobs) ≤ place_in k jobs
unfolding place_in insert lookup
place_in-insert_new k i job [] found h = rw (if_neg (ℕ_discrete i k) h) (omega arith)
place_in-insert_new k i job ((j, other) ∷ jobs) found h = elim (ℕ_discrete j i) [
  | yes p ↦
      absurd (some_none (sym (if_pos (ℕ_discrete j i) p (some other) (lookup i jobs)) ∙ found))
  | no p ↦
      let later = sym (if_neg (ℕ_discrete j i) p (some other) (lookup i jobs)) ∙ found in
      rw (if_neg (ℕ_discrete j i) p) (
        seen_mono j k (waits other) (waits other) _ _ (le_refl _)
          (place_in-insert_new k i job jobs later h))
]

seen-past : (j k one p : ℕ) → j ≢ k → p ≤ seen j k one p
seen-past j k one p h = rw (if_neg (ℕ_discrete j k) h) (ground arith)

pub place_in-without :
    (k i : JobId) (jobs : Dict JobId Job) → place_in k (without_job jobs i) ≤ place_in k jobs
unfolding place_in without contains
place_in-without k i [] = omega arith
place_in-without k i ((j, other) ∷ jobs) = elim (ℕ_discrete i j) [
  | no p ↦
      rw (if_neg (ℕ_discrete i j) p)
        (seen_mono j k (waits other) (waits other) _ _ (le_refl _) (place_in-without k i jobs))
  | yes p ↦ elim (ℕ_discrete j k) [
    | yes q ↦
        rw
          (
            if_pos (ℕ_discrete i j) p,
            place_in-absent k (without_job jobs i) (lookup-without_own i k jobs (p ∙ q)),
          )
          (omega arith)
    | no q ↦
        rw (if_pos (ℕ_discrete i j) p)
          (le_trans (place_in-without k i jobs) (seen-past j k (waits other) (place_in k jobs) q))
  ]
]

-- The first queued job is started: every other one moves up.
pub place_in-promote :
    (k i : JobId) (job first : Job) (jobs : Dict JobId Job)
    → IsDistinct jobs
    → first_queued jobs ≡ some (i, first)
    → waits job ≡ 0
    → place_in k (insert i job jobs) ≤ place_in k jobs - 1
unfolding place_in insert IsDistinct first_queued
place_in-promote k i job first [] d found h = cc
place_in-promote k i job first ((j, other) ∷ jobs) d found h =
    elim (if_some (is_queued other.status) (j, other) (i, first) (first_queued jobs) found) [
      | inl (queued, same) ↦
          let p : j ≡ i = ap (λ x. x.0) same in
          rw (if_pos (ℕ_discrete j i) p) (
            subst
              (λ x.
                seen x k (waits job) (place_in k jobs)
                ≤ seen j k (waits other) (place_in k jobs) - 1)
              p (seen-started j k (waits job) (waits other) (place_in k jobs) h (ap one_if queued)))
      | inr (idle, rest) ↦
          let later = first_queued-some jobs i first d.1 rest in
          let p : j ≢ i = λ e. some_none (sym later.0 ∙ subst (λ x. lookup x jobs ≡ none) e d.0) in
          rw (if_neg (ℕ_discrete j i) p) (
            seen-idle j k (waits other) _ _ (ap one_if idle)
              (place_in-promote k i job first jobs d.1 rest h))
    ]

-- Where no job is queued none has a place; and a job without a place is not queued.
pub place_in-idle :
    (k : JobId) (jobs : Dict JobId Job) → first_queued jobs ≡ none → place_in k jobs ≡ 0
unfolding place_in first_queued
place_in-idle k [] h = refl
place_in-idle k ((j, job) ∷ jobs) h =
    let (idle, rest) = if_none (is_queued job.status) (j, job) (first_queued jobs) h in
    rw (place_in-idle k jobs rest, idle) (nothing j)
  where
    nothing : (i : ℕ) → seen i k 0 0 ≡ 0
    nothing i = elim (ℕ_discrete i k) [ yes e ↦ seen-hit i k 0 0 e | no e ↦ seen-miss i k 0 0 e ]

pub place_in-zero :
    (k : JobId) (job : Job) (jobs : Dict JobId Job)
    → lookup k jobs ≡ some job
    → place_in k jobs ≡ 0
    → is_queued job.status ≡ false
unfolding place_in lookup
place_in-zero k job [] found h = cc
place_in-zero k job ((j, other) ∷ jobs) found h = elim (ℕ_discrete j k) [
  | yes e ↦
      let same =
        some-cancel (sym (if_pos (ℕ_discrete j k) e (some other) (lookup k jobs)) ∙ found) in
      subst (λ (x : Job). is_queued x.status ≡ false) same
        (unqueued (is_queued other.status)
          (sym (seen-hit j k (waits other) (place_in k jobs) e) ∙ h))
  | no e ↦
      place_in-zero k job jobs
        (sym (if_neg (ℕ_discrete j k) e (some other) (lookup k jobs)) ∙ found)
        (no_place (waits other) (place_in k jobs)
          (sym (seen-miss j k (waits other) (place_in k jobs) e) ∙ h))
]
  where
    unqueued : (b : Bool) → one_if b ≡ 0 → b ≡ false
    unqueued true p = absurd (omega (arith, p))
    unqueued false p = refl

    no_place : (one p : ℕ) → behind one p ≡ 0 → p ≡ 0
    no_place one p q = ground (arith, q)
