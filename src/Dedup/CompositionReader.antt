-- ===== src/Dedup/CompositionReader.antt =====
-- dedup/composition_reader.py: reading a session's composition data, which is split into sub-files.
pub mod Flat
pub mod Pages
use apm_repo_sdk_python.Base.{
  ℕ, zero, suc, ◌+◌, ◌-◌, Bool, true, false, List, [], ◌++◌, leb, ◌==◌, length, min,
}
use apm_repo_sdk_python.Base.Bytes.{Bytes}
use apm_repo_sdk_python.Errors.{Result, ok, Error, ◌>>=◌, ◌>>◌, ensure}
use apm_repo_sdk_python.Format.Address.{split_composition_offset}
use apm_repo_sdk_python.Format.Const.{sub_file_size}

-- `self._store.read(path, sub_off, take)` for the path of a sub-file: its number, the offset in it
-- and the number of bytes asked for.
pub record SubFiles : Type 0 where
  pub read : ℕ → ℕ → ℕ → Result Bytes

-- How much of the rest is in the sub-file of an offset.
unfoldable pub take_of : ℕ → ℕ → ℕ
unfolding split_composition_offset
take_of offset remaining = min remaining (sub_file_size - (split_composition_offset offset).1)

module _ (files : SubFiles) where
  -- The loop of `read_at`; it takes at least one byte in each round.
  unfoldable pub read_loop : ℕ → ℕ → ℕ → Bytes → Result Bytes
  unfolding take_of split_composition_offset
  read_loop zero offset remaining out = ok out
  read_loop (suc fuel) offset zero out = ok out
  read_loop (suc fuel) offset (suc r) out = do
    let (sub_id, sub_off) = split_composition_offset offset
    let asked = take_of offset (suc r)
    chunk ← files.read sub_id sub_off asked
    ensure (leb asked (length chunk)) Error.format_error
    read_loop fuel (offset + length chunk) (suc r - length chunk) (out ++ chunk)

  unfoldable pub read_at : ℕ → ℕ → Result Bytes
  unfolding read_loop
  read_at global_offset n = read_loop n global_offset n []
