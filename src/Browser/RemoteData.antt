-- ===== src/Browser/RemoteData.antt =====
-- core/remote_data.py: the state of one piece of data fetched from the SDK. `NoValue` is `none`.
use Prim.Native.String.{String}
use apm_repo_sdk_python.Base.{Bool, true, false, Option, none, some}

pub data FailureKind : Type 0 where
  key_required not_found other : FailureKind

pub record FailureInfo : Type 0 where
  pub message : String
  pub kind : FailureKind

pub data RemoteData (T : Type 0) : Type 0 where
  not_asked : RemoteData T
  loading : Option T → RemoteData T
  success : T → RemoteData T
  failure : FailureInfo → RemoteData T

unfoldable pub loading_preserving : {T : Type 0} → RemoteData T → RemoteData T
loading_preserving (RemoteData.success value) = RemoteData.loading (some value)
loading_preserving _ = RemoteData.loading none

unfoldable pub is_pending_or_done : {T : Type 0} → RemoteData T → Bool
is_pending_or_done RemoteData.not_asked = false
is_pending_or_done (RemoteData.loading _) = true
is_pending_or_done (RemoteData.success _) = true
is_pending_or_done (RemoteData.failure _) = false

unfoldable pub value_or_stale : {T : Type 0} → RemoteData T → Option T
value_or_stale (RemoteData.success value) = some value
value_or_stale (RemoteData.loading previous) = previous
value_or_stale _ = none

unfoldable pub is_loading : {T : Type 0} → RemoteData T → Bool
is_loading (RemoteData.loading _) = true
is_loading _ = false
