-- ===== src/Tests/Readers.antt =====
-- dedup/composition_reader.py over two sub-files.
use apm_repo_sdk_python.Base.{
  true, ap, [], ◌++◌, nat_deceq, ℕ, ◌+◌, ◌*◌, ◌-◌, ◌%◌, ◌^◌, ◌≡◌, refl, arith,
}
use apm_repo_sdk_python.Base.Tabulate.{tabulate}
use apm_repo_sdk_python.Base.Bytes.{Bytes}
use apm_repo_sdk_python.Base.Dict.{lookup}
use apm_repo_sdk_python.Dedup.CompositionReader.{SubFiles, read_at}
use apm_repo_sdk_python.Dedup.CompositionReader.Flat.{read_at-flat}
use apm_repo_sdk_python.Dedup.CompositionReader.Pages.{PageEnds, note_end, note_page_end}
use apm_repo_sdk_python.Dedup.CompositionReader.Pages.Prefix.{IsPrefix, note_page_end-IsPrefix}
use apm_repo_sdk_python.Errors.{Result, ok, ◌>>=◌}
use apm_repo_sdk_python.Format.Address.{ChunkAddress, to_int}
use apm_repo_sdk_python.Format.Address.Packing.{InRange}
use apm_repo_sdk_python.Format.ChunkMap.{ChunkMapEntry, mapping, end_offset}
use apm_repo_sdk_python.Format.ChunkMap.Codec.{
  entry, record_bytes, head_word, count_word, parse_chunk_map_record-record_bytes,
}

abbrev content : ℕ → ℕ
content i = i % 251

abbrev two_files : SubFiles
two_files = record { read = λ sub_id off n. ok (tabulate content (sub_id * 2 ^ 24 + off) n) }

-- Two bytes of the first sub-file and two of the second.
read_at-flat_example : read_at two_files (2 ^ 24 - 2) 4 ≡ ok (tabulate content (2 ^ 24 - 2) 4)
read_at-flat_example =
    read_at-flat two_files content (2 ^ 25) (λ sub_id off n p q. refl) (2 ^ 24 - 2) 4 (omega arith)

abbrev address : ChunkAddress
address = record { stream_id = 3; bucket_id = 70000; chunk_idx = 5 }

address-InRange : InRange address
address-InRange = record { stream = omega arith; bucket = omega arith; chunk = omega arith }

abbrev last_record : Bytes
last_record =
    record_bytes (head_word mapping true 77) (to_int address) (count_word mapping 5 2) ++ []

abbrev last_entry : ChunkMapEntry
last_entry = entry mapping true 77 address 5 2

abbrev unknown : PageEnds
unknown = record { end_offsets = []; scanned = 0 }

-- The only page of an array of three entries.
noted_run :
    note_page_end 3 unknown 0 last_record ≡ ok (note_end 3 unknown 0 (end_offset last_entry))
unfolding note_page_end
noted_run =
    ap (λ (r : Result ChunkMapEntry). r >>= λ e. ok (note_end 3 unknown 0 (end_offset e)))
      (parse_chunk_map_record-record_bytes mapping true 77 address 5 2 []
        (omega arith, address-InRange, omega arith, omega arith))

unknown-IsPrefix : IsPrefix 3 unknown
unfolding lookup
unknown-IsPrefix = record {
  covered = λ i h. absurd (omega (arith, h));
  gap = refl;
  within = λ i h. absurd (h refl);
}

note_page_end-IsPrefix_example : IsPrefix 3 (note_end 3 unknown 0 (end_offset last_entry))
note_page_end-IsPrefix_example =
    note_page_end-IsPrefix 3 unknown 0 last_record (note_end 3 unknown 0 (end_offset last_entry))
      unknown-IsPrefix (omega arith) noted_run
