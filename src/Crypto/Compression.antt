-- ===== src/Crypto/Compression.antt =====
-- `CompressionSession`. What the compression library does is a parameter. An algorithm is its number
-- in the protocol: 0 for none, ZSTD 100, LZ4 200, SNAPPY 300, ZLIB 400.
use libatbus_go.Base.{ℕ, [], ◌∷◌, Option, none, some, Bool, true}
use libatbus_go.Base.{◌==◌, if◌then◌else◌}
use libatbus_go.Crypto.Session.{Bytes}

-- The algorithms of the library
pub data CompressionAdapter : Type 0 where
  adapter_none : CompressionAdapter
  adapter_zstd : CompressionAdapter
  adapter_lz4 : CompressionAdapter
  adapter_snappy : CompressionAdapter
  adapter_zlib : CompressionAdapter

-- Its answers: the bytes, that it cannot, or another error
pub data LibraryAnswer : Type 0 where
  code_ok : Bytes → LibraryAnswer
  code_not_support : LibraryAnswer
  code_other : LibraryAnswer

pub record CompressionLibrary : Type 0 where
  pub is_algorithm_supported : CompressionAdapter → Bool
  pub run_compress : CompressionAdapter → Bytes → LibraryAnswer
  pub run_decompress : CompressionAdapter → Bytes → ℕ → LibraryAnswer

pub data CompressionError : Type 0 where
  compression_not_supported : CompressionError
  compression_failed : CompressionError
  decompression_failed : CompressionError

pub data Compressed : Type 0 where
  bytes_of : Bytes → Compressed
  failed_with : CompressionError → Compressed

-- `compressionAlgorithmToAdapter`
unfoldable pub compression_algorithm_to_adapter : ℕ → CompressionAdapter
compression_algorithm_to_adapter n =
    if n == 100
    then adapter_zstd
    else if n == 200
    then adapter_lz4
    else if n == 300
    then adapter_snappy
    else if n == 400
    then adapter_zlib
    else adapter_none

abbrev pub answer_or : CompressionError → LibraryAnswer → Compressed
answer_or e (code_ok xs) = bytes_of xs
answer_or e code_not_support = failed_with compression_not_supported
answer_or e code_other = failed_with e

module _ (library : CompressionLibrary) where
  -- `compressionAlgorithmSupported`
  abbrev pub compression_algorithm_supported : ℕ → Bool
  compression_algorithm_supported n =
      if n == 0 then true else library.is_algorithm_supported (compression_algorithm_to_adapter n)

  -- `SetAlgorithm`: the session is its algorithm.
  unfoldable pub set_algorithm : ℕ → ℕ → Option CompressionError × ℕ
  set_algorithm n session =
      if n == 0
      then (none, n)
      else if compression_algorithm_supported n
      then (none, n)
      else (some compression_not_supported, session)

  -- `Compress`
  unfoldable pub compress : Bytes → ℕ → Compressed
  compress [] session = bytes_of []
  compress (x ∷ xs) session =
      if session == 0
      then bytes_of (x ∷ xs)
      else answer_or compression_failed
          (library.run_compress (compression_algorithm_to_adapter session) (x ∷ xs))

  -- `Decompress`
  unfoldable pub decompress : Bytes → ℕ → ℕ → Compressed
  decompress [] original_size session = bytes_of []
  decompress (x ∷ xs) original_size session =
      if session == 0
      then bytes_of (x ∷ xs)
      else answer_or decompression_failed
          (library.run_decompress (compression_algorithm_to_adapter session) (x ∷ xs) original_size)
