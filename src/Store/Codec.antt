-- ===== src/Store/Codec.antt =====
-- The zstd codec that internal/store/writer.go and internal/store/reader.go call
-- (github.com/klauspost/compress), as what the store relies on.
use r_dns_crawler.Base.{◌≡◌, refl, Option, some, Bytes}

-- `EncodeAll` and `DecodeAll`: a compressed block is restored.
pub record Codec : Type 0 where
  pub compress : Bytes → Bytes
  pub decompress : Bytes → Option Bytes
  pub decompress-compress : (b : Bytes) → decompress (compress b) ≡ some b

-- A codec that copies.
abbrev pub copying : Codec
copying = record { compress = λ b. b; decompress = λ b. some b; decompress-compress = λ b. refl }
