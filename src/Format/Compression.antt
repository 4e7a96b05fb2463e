-- ===== src/Format/Compression.antt =====
-- format/compression.py: how a chunk is stored.
pub data CompressType : Type 0 where
  none lz4 zstd compacted : CompressType
