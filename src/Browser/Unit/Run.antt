-- ===== src/Browser/Unit/Run.antt =====
-- core/unit/update.py over time: the store handles a sequence of events, each of which ends without
-- an exception.
use mathlib.Core.Path.{subst}
use native.Mathlib.Nat.{le_refl}
use apm_repo_sdk_python.Base.{refl, Bool, ◌+◌, ◌≤◌, ◌≡◌, arith, List, some, inl}
use apm_repo_sdk_python.Browser.Keys.{Epoch, RequestId}
use apm_repo_sdk_python.Browser.Unit.Children.{on_root_requested}
use apm_repo_sdk_python.Browser.Unit.Model.{UnitModel, UnitMsg, UnitCmd, UnitSlot}
use apm_repo_sdk_python.Browser.Unit.Stale.{origin, released, update-OutOfDate}
use apm_repo_sdk_python.Browser.Unit.Steps.{update-Good}
use apm_repo_sdk_python.Browser.Unit.Update.{update}
use apm_repo_sdk_python.Browser.Unit.Valid.{IsValid}
use apm_repo_sdk_python.Errors.{ok-cancel, ok}

pub data Run : UnitModel → UnitModel → Type 0 where
  done : {m : UnitModel} → Run m m
  step :
      {m n p : UnitModel} (msg : UnitMsg) (cmds : List UnitCmd)
      → update m msg ≡ ok (n, cmds)
      → Run n p
      → Run m p

-- Validity is kept over any run, and the epoch and the request numbers never go back.
pub Run-IsValid :
    {m p : UnitModel}
    → Run m p
    → IsValid m
    → IsValid p × (m.epoch ≤ p.epoch) × (m.next_request ≤ p.next_request)
Run-IsValid done v = (v, le_refl _, le_refl _)
Run-IsValid (step {m = m} msg cmds e run) v =
    let good = update-Good m msg v e in
    let later = Run-IsValid run good.valid in
    (later.0, omega (arith, good.epochs, later.1), omega (arith, good.requests, later.2))

reloaded :
    (m n : UnitModel) (cmds : List UnitCmd) (invalidate force_raw : Bool)
    → update m (UnitMsg.root_requested invalidate force_raw) ≡ ok (n, cmds)
    → n.epoch ≡ m.epoch + 1
unfolding update on_root_requested
reloaded m n cmds invalidate force_raw e = subst (λ r. r.0.epoch ≡ m.epoch + 1) (ok-cancel e) refl

-- After a reload, however many events follow it, a result of a fetch from before the reload leaves
-- the model as it is, and a provider that it brings is closed.
pub update-before_reload :
    (m n : UnitModel) {p : UnitModel} (cmds : List UnitCmd) (invalidate force_raw : Bool)
    (msg : UnitMsg) (slot : UnitSlot) (epoch : Epoch) (request : RequestId)
    → IsValid m
    → update m (UnitMsg.root_requested invalidate force_raw) ≡ ok (n, cmds)
    → Run n p
    → origin msg ≡ some (slot, epoch, request)
    → epoch ≤ m.epoch
    → update p msg ≡ ok (p, released msg)
update-before_reload m n {p} cmds invalidate force_raw msg slot epoch request v e run o old =
    let later = Run-IsValid run (update-Good m _ v e).valid in
    update-OutOfDate p msg (
      rw o
        (inl (λ now. omega (arith, reloaded m n cmds invalidate force_raw e, later.1, now, old))))
