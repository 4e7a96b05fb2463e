-- ===== src/Dedup/CompositionReader/Pages.antt =====
-- dedup/composition_reader.py: the pages of a record's chunk map, and the ends known of them.
pub mod Prefix
use apm_repo_sdk_python.Base.{
  ℕ, zero, suc, ◌+◌, ◌-◌, ◌*◌, ◌/◌, Bool, true, false, List, [], ◌∷◌, ◌++◌, Option, none, some,
  ◌==◌, if◌then◌else◌, length, take, drop, min, nat_deceq,
}
use apm_repo_sdk_python.Base.Bytes.{Bytes}
use apm_repo_sdk_python.Base.Dict.{Dict, lookup, insert}
use apm_repo_sdk_python.Errors.{Result, ok, Error, ◌>>=◌, ◌>>◌, ensure}
use apm_repo_sdk_python.Format.ChunkMap.{parse_chunk_map_record, end_offset}
use apm_repo_sdk_python.Format.Const.{chunk_map_record_length}

abbrev pub page_size : ℕ
page_size = 2048

abbrev pub page_count : ℕ → ℕ
page_count map_num = (map_num + page_size - 1) / page_size

-- `_page_end_offsets` and `_contiguous_scanned`.
pub record PageEnds : Type 0 where
  pub end_offsets : Dict ℕ ℕ
  pub scanned : ℕ

-- `while scanned in end_offsets: scanned += 1`, for as many rounds as there are pages.
unfoldable pub absorb : ℕ → Dict ℕ ℕ → ℕ → ℕ
absorb zero ends n = n
absorb (suc fuel) ends n =
    let rest = absorb fuel ends (n + 1) in elim (lookup n ends) [ none ↦ n | some _ ↦ rest ]

-- `_note_page_end`, from the end of the page's last record on.
unfoldable pub note_end : ℕ → PageEnds → ℕ → ℕ → PageEnds
unfolding absorb
note_end map_num known page_idx offset =
    let ends = insert page_idx offset known.end_offsets in
    let past = absorb (page_count map_num) ends (known.scanned + 1) in
    record {
      end_offsets = ends;
      scanned = if page_idx == known.scanned then past else known.scanned;
    }

unfoldable pub note_page_end : ℕ → PageEnds → ℕ → Bytes → Result PageEnds
unfolding note_end
note_page_end map_num known page_idx last_record = do
  entry ← parse_chunk_map_record last_record
  ok (note_end map_num known page_idx (end_offset entry))
