-- ===== src/Errors.antt =====
-- packages/synology-apm-repo-sdk/src/synology_apm_repo/sdk/errors.py, with the built-in exceptions
-- that the modelled code raises: the class of an exception, without its message and `spec`.
use apm_repo_sdk_python.Base.{Bool, true, false, ◌≡◌, refl}

pub data Error : Type 0 where
  apm_repo_error format_error data_corrupt_error unsupported_version_error : Error
  chunk_compacted_error key_material_error key_required_error key_mismatch_error : Error
  invalid_argument_error not_found_error content_unavailable_error not_restorable_error : Error
  permission_denied_error storage_backend_error unsupported_data_format_error : Error
  resource_limit_exceeded_error worker_process_error : Error
  value_error index_error key_error type_error assertion_error struct_error overflow_error
        cancelled_error :
      Error

-- Whether `except FormatError` catches it.
unfoldable pub is_format_error : Error → Bool
is_format_error Error.format_error = true
is_format_error Error.data_corrupt_error = true
is_format_error Error.unsupported_version_error = true
is_format_error Error.chunk_compacted_error = true
is_format_error _ = false

-- A value, or the exception raised.
pub data Result {ℓ} (A : Type ℓ) : Type ℓ where
  ok : A → Result A
  raise : Error → Result A

infixl 5 ◌>>=◌ ◌>>◌
abbrev pub ◌>>=◌ {ℓ κ} : {A : Type ℓ} {B : Type κ} → Result A → (A → Result B) → Result B
ok a >>= f = f a
raise e >>= f = raise e

abbrev pub ◌>>◌ {ℓ} : {B : Type ℓ} → Result (Unit {0}) → Result B → Result B
m >> k = m >>= λ _. k

-- `if not c: raise e`.
abbrev pub ensure : Bool → Error → Result (Unit {0})
ensure true e = ok tt
ensure false e = raise e

-- What a chain of checks that ends in a value says of each.
pub ensure-ok {ℓ} :
    {A : Type ℓ} (b : Bool) (e : Error) (k : Result A) (a : A)
    → (ensure b e >> k) ≡ ok a
    → (b ≡ true) × (k ≡ ok a)
ensure-ok true e k a h = (refl, h)
ensure-ok false e k a h = cc

pub then-ok {ℓ} :
    {A : Type ℓ} (m : Result (Unit {0})) (k : Result A) (a : A) → (m >> k) ≡ ok a → k ≡ ok a
then-ok (ok _) k a h = h
then-ok (raise e) k a h = cc

pub ok-cancel {ℓ} : {A : Type ℓ} {a b : A} → ok a ≡ ok b → a ≡ b
ok-cancel p = cc

-- A value, or ValueError.
pub data ValueOr {ℓ} {A : Type ℓ} : Result A → Type ℓ where
  value : (a : A) → ValueOr (ok a)
  refused : ValueOr (raise Error.value_error)

pub ValueOr-bind {ℓ κ} :
    {A : Type ℓ} {B : Type κ} {r : Result A} {f : A → Result B}
    → ValueOr r
    → ((a : A) → ValueOr (f a))
    → ValueOr (r >>= f)
ValueOr-bind (ValueOr.value a) h = h a
ValueOr-bind ValueOr.refused h = ValueOr.refused

pub ValueOr-ensure : (b : Bool) → ValueOr (ensure b Error.value_error)
ValueOr-ensure true = ValueOr.value tt
ValueOr-ensure false = ValueOr.refused
