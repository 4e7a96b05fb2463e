-- ===== src/Browser/Keys.antt =====
-- core/keys.py: handles, request numbers and slots, and the test for a stale result. `kind`, a
-- tag that each domain chooses, is a type of the domain in place of a string.
use apm_repo_sdk_python.Base.{
  ℕ, ◌≡◌, arith, Bool, true, false, not, ◌||◌, Option, none, some, ◌==◌, DecEq, ℕ_discrete, ◌↔◌,
}
use apm_repo_sdk_python.Base.Text.{Text}
use apm_repo_sdk_python.Base.Dict.{Dict, lookup}

pub record RepoHandle : Type 0 where
  pub id : ℕ

pub record ProviderHandle : Type 0 where
  pub id : ℕ

unfoldable pub RepoHandle-discrete : Discrete RepoHandle
RepoHandle-discrete = hlevel ℕ_discrete

instance abbrev pub repo_handle_deceq : DecEq RepoHandle
unfolding RepoHandle-discrete
repo_handle_deceq = record { eq? = RepoHandle-discrete }

pub record CatalogKey : Type 0 where
  pub repo : RepoHandle
  pub catalog_id : Text

unfoldable pub CatalogKey-discrete : Discrete CatalogKey
CatalogKey-discrete = hlevel ℕ_discrete

instance abbrev pub catalog_key_deceq : DecEq CatalogKey
unfolding CatalogKey-discrete
catalog_key_deceq = record { eq? = CatalogKey-discrete }

pub record WorkloadKey : Type 0 where
  pub catalog : CatalogKey
  pub workload_uid : Text

unfoldable pub WorkloadKey-discrete : Discrete WorkloadKey
WorkloadKey-discrete = hlevel ℕ_discrete

instance abbrev pub workload_key_deceq : DecEq WorkloadKey
unfolding WorkloadKey-discrete
workload_key_deceq = record { eq? = WorkloadKey-discrete }

-- `RequestId` and `Epoch` are counters.
abbrev pub RequestId : Type 0
RequestId = ℕ

abbrev pub Epoch : Type 0
Epoch = ℕ

pub record Slot (Kind Key : Type 0) : Type 0 where
  pub kind : Kind
  pub key : Option Key

-- `inflight.get(slot) != request`.
unfoldable pub differs : Option RequestId → RequestId → Bool
differs none request = true
differs (some r) request = not (r == request)

module _ {S : Type 0} ⦃e : DecEq S⦄ where
  unfoldable pub is_stale : Epoch → Dict S RequestId → S → Epoch → RequestId → Bool
  unfolding differs
  is_stale model_epoch inflight slot epoch request =
      not (model_epoch == epoch) || differs (lookup slot inflight) request

  -- A result is current exactly when it is of the model's epoch and answers the slot's request.
  pub is_stale_iff :
      (model_epoch : Epoch) (inflight : Dict S RequestId) (slot : S) (epoch request : ℕ)
      → (is_stale model_epoch inflight slot epoch request ≡ false)
        ↔ ((model_epoch ≡ epoch) × (lookup slot inflight ≡ some request))
  unfolding is_stale
  is_stale_iff model_epoch inflight slot epoch request = ground arith

-- `filter_text_changed` and `filter_closed`, over how a domain's model holds its filter; `with_text`
-- is `dataclasses.replace(state, text=text)`.
abbrev pub filter_text_changed :
    {M F T : Type 0} → M → (M → Option F) → (M → F → M) → (F → T → F) → T → M
filter_text_changed model get_state apply_state with_text text = elim (get_state model) [
  | none ↦ model
  | some state ↦ apply_state model (with_text state text)
]

abbrev pub filter_closed : {M F : Type 0} → M → (M → Option F) → (M → M) → M
filter_closed model get_state clear_state = elim (get_state model) [
  | none ↦ model
  | some _ ↦ clear_state model
]
