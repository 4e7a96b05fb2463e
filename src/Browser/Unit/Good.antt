-- ===== src/Browser/Unit/Good.antt =====
-- What every handler guarantees of the model and the effects that it returns, and how such a
-- guarantee goes through a branch, an assertion and a sequence.
use mathlib.Core.Path.{subst}
use native.Mathlib.Nat.{le_refl}
use apm_repo_sdk_python.Base.{
  ◌≤◌, ◌≡◌, refl, Bool, true, false, List, [], none, some, All, if◌then◌else◌, Option, Option-cases,
  inl, inr,
}
use apm_repo_sdk_python.Base.Dict.{lookup}
use apm_repo_sdk_python.Browser.Keys.{Epoch, RequestId, ProviderHandle}
use apm_repo_sdk_python.Browser.Unit.Children.{Outcome, held_provider}
use apm_repo_sdk_python.Browser.Unit.Model.{
  UnitModel, UnitCmd, UnitSlot, unit_slot_deceq, provider_slot, detail_slot, goto_slot,
  unit_open_slot, children_slot,
}
use apm_repo_sdk_python.Browser.Unit.Valid.{IsValid, IsFresh, IsRunning, IsIndexed, IsDetached}
use apm_repo_sdk_python.Errors.{ok-cancel, ok, raise, Error, ◌>>=◌}

-- The request `r` of epoch `e` is the one that the new model waits for in slot `s`, and its number
-- was not given out before.
abbrev pub Awaits : UnitModel → UnitModel → UnitSlot → Epoch → RequestId → Type 0
Awaits old new s e r = (e ≡ new.epoch) × (lookup s new.inflight ≡ some r) × (old.next_request ≤ r)

abbrev pub FetchesWith :
    UnitModel → UnitModel → UnitSlot → Epoch → RequestId → ProviderHandle → Type 0
FetchesWith old new s e r handle = Awaits old new s e r × (new.provider ≡ some handle)

-- Every fetch that is started is one whose result the new model will accept, from the provider
-- that it holds.
abbrev pub Issued : UnitModel → UnitModel → UnitCmd → Type 0
Issued old new (UnitCmd.load_root e r invalidate force_raw) = Awaits old new provider_slot e r
Issued old new (UnitCmd.load_children e r handle node offset limit) =
    FetchesWith old new (children_slot node.ref) e r handle
Issued old new (UnitCmd.load_preview e r handle node read_limit) =
    FetchesWith old new detail_slot e r handle
Issued old new (UnitCmd.load_list_overview e r handle node cap limit concurrent) =
    FetchesWith old new detail_slot e r handle
Issued old new (UnitCmd.resolve_goto e r handle target) = FetchesWith old new goto_slot e r handle
Issued old new (UnitCmd.open_unit e r handle node purpose) =
    FetchesWith old new unit_open_slot e r handle
Issued old new _ = Unit

pub record Good (old new : UnitModel) (cmds : List UnitCmd) : Type 0 where
  pub valid : IsValid new
  pub issued : All (Issued old new) cmds
  pub epochs : old.epoch ≤ new.epoch
  pub requests : old.next_request ≤ new.next_request

-- A property of what is returned; an exception returns nothing.
pub data Ensures (P : UnitModel → List UnitCmd → Type 0) : Outcome → Type 0 where
  returns : {r : UnitModel × List UnitCmd} → P r.0 r.1 → Ensures P (ok r)
  raises : {e : Error} → Ensures P (raise e)

pub Ensures-ok :
    {P : UnitModel → List UnitCmd → Type 0} {x : Outcome} {r : UnitModel × List UnitCmd}
    → Ensures P x
    → x ≡ ok r
    → P r.0 r.1
Ensures-ok {P} (returns h) e = subst (λ s. P s.0 s.1) (ok-cancel e) h
Ensures-ok raises e = cc

pub Ensures-both :
    {P Q : UnitModel → List UnitCmd → Type 0} {x : Outcome}
    → Ensures P x
    → Ensures Q x
    → Ensures (λ m cmds. P m cmds × Q m cmds) x
Ensures-both (returns h) q = returns (h, Ensures-ok q refl)
Ensures-both raises q = raises

pub Ensures-map :
    {P Q : UnitModel → List UnitCmd → Type 0} {x : Outcome}
    → ((m : UnitModel) (cmds : List UnitCmd) → P m cmds → Q m cmds)
    → Ensures P x
    → Ensures Q x
Ensures-map f (returns {r = r} h) = returns (f r.0 r.1 h)
Ensures-map f raises = raises

module _ {P : UnitModel → List UnitCmd → Type 0} where
  pub on_branch :
      (t : Bool) {x y : Outcome}
      → (t ≡ true → Ensures P x)
      → (t ≡ false → Ensures P y)
      → Ensures P (if t then x else y)
  on_branch true h k = h refl
  on_branch false h k = k refl

  pub on_option :
      {A : Type 0} (o : Option A) {x : Outcome} {f : A → Outcome}
      → (o ≡ none → Ensures P x)
      → ((a : A) → o ≡ some a → Ensures P (f a))
      → Ensures P (elim o as (λ y. Outcome) [ none ↦ x | some a ↦ f a ])
  on_option none h k = h refl
  on_option (some a) h k = k a refl

  pub on_held :
      (m : UnitModel) {f : ProviderHandle → Outcome}
      → ((handle : ProviderHandle) → m.provider ≡ some handle → Ensures P (f handle))
      → Ensures P (held_provider m >>= f)
  on_held m {f} h = elim (Option-cases m.provider) [
    | inl gone ↦ rw gone raises
    | inr (handle, held) ↦ rw held (h handle held)
  ]

  pub Ensures-bind :
      {Q : UnitModel → List UnitCmd → Type 0} {x : Outcome} (f : UnitModel × List UnitCmd → Outcome)
      → Ensures Q x
      → ((m : UnitModel) (cmds : List UnitCmd) → Q m cmds → Ensures P (f (m, cmds)))
      → Ensures P (x >>= f)
  Ensures-bind f (returns {r = r} h) k = k r.0 r.1 h
  Ensures-bind f raises k = raises

-- The fields that validity reads.
abbrev pub core : UnitModel → UnitModel
core m = record m {
  root_error = none;
  errors = [];
  filter = none;
  selected = none;
  detail = none;
  verbose = false;
  goto = none;
  landing = none;
}

pub IsValid-core : (m : UnitModel) {n : UnitModel} → core m ≡ core n → IsValid m → IsValid n
IsValid-core m e v = record {
  fresh = subst (λ c. IsFresh c.inflight c.next_request) e v.fresh;
  running = subst (λ c. IsRunning c.pending c.inflight) e v.running;
  indexed = subst (λ c. IsIndexed c.loaded c.node_index) e v.indexed;
  detached =
      subst (λ c. c.provider ≡ none → IsDetached c.root c.loaded c.pending c.inflight) e v.detached;
}

-- A handler that changes nothing of the core, and starts no fetch.
pub quiet-Good :
    (m : UnitModel) {n : UnitModel} {cmds : List UnitCmd}
    → core m ≡ core n
    → All (Issued m n) cmds
    → IsValid m
    → Good m n cmds
quiet-Good m {n} e c v = record {
  valid = IsValid-core m e v;
  issued = c;
  epochs = subst (λ x. m.epoch ≤ x.epoch) e (le_refl m.epoch);
  requests = subst (λ x. m.next_request ≤ x.next_request) e (le_refl m.next_request);
}
