-- ===== src/Format/Const.antt =====
-- format/const.py.
use apm_repo_sdk_python.Base.{ℕ, ◌^◌}

abbrev pub bucket_id_bit_num : ℕ
bucket_id_bit_num = 40

abbrev pub chunk_bit_num : ℕ
chunk_bit_num = 16

abbrev pub max_bucket_num : ℕ
max_bucket_num = 2 ^ bucket_id_bit_num

abbrev pub bucket_id_layer_shift : ℕ
bucket_id_layer_shift = 10

abbrev pub group_bucket_num : ℕ
group_bucket_num = 2 ^ bucket_id_layer_shift

abbrev pub bucket_chunk_bit_num : ℕ
bucket_chunk_bit_num = 13

abbrev pub bucket_max_chunk_num : ℕ
bucket_max_chunk_num = 2 ^ bucket_chunk_bit_num

abbrev pub fixed_chunk_bit_num : ℕ
fixed_chunk_bit_num = 12

abbrev pub fixed_chunk_length : ℕ
fixed_chunk_length = 2 ^ fixed_chunk_bit_num

abbrev pub reserved_leng : ℕ
reserved_leng = 4096

abbrev pub compress_reserved_leng : ℕ
compress_reserved_leng = 16384

abbrev pub size_store_rec_bit_num : ℕ
size_store_rec_bit_num = 15

abbrev pub chunk_crc_size : ℕ
chunk_crc_size = 4

abbrev pub redundancy_coverage_bucket : ℕ
redundancy_coverage_bucket = 256

abbrev pub redundancy_coverage_composition : ℕ
redundancy_coverage_composition = 8192

abbrev pub sub_file_size_shift : ℕ
sub_file_size_shift = 24

abbrev pub sub_file_size : ℕ
sub_file_size = 2 ^ sub_file_size_shift

abbrev pub record_head_length : ℕ
record_head_length = 32

abbrev pub chunk_map_record_length : ℕ
chunk_map_record_length = 20
