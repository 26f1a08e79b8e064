-- ===== src/Metadata/Serialize.antt =====
-- common/cpp/public_metadata/serialize.cc: a uint64 as 8 bytes whose order is that of the numbers. The
-- machine is little-endian, so that htobe64 followed by memcpy writes the most significant byte first.
pub mod Bytes
use vpn_libraries.Prelude.{ℕ, zero, suc, ◌+◌, ◌*◌, ◌/◌, ◌%◌, List, [], ◌∷◌, ◌++◌}
use vpn_libraries.Prelude.Text.{Text}

-- The n bytes of a number, the most significant first.
unfoldable pub big_endian : ℕ → ℕ → Text
big_endian zero x = []
big_endian (suc n) x = big_endian n (x / 256) ++ x % 256 ∷ []

unfoldable pub uint64_to_bytes : ℕ → Text
unfolding big_endian
uint64_to_bytes fp = big_endian 8 fp

unfoldable pub read_big_endian : ℕ → Text → ℕ
read_big_endian acc [] = acc
read_big_endian acc (b ∷ bs) = read_big_endian (acc * 256 + b) bs

-- A key of 8 bytes; the source only checks that with a DCHECK.
unfoldable pub bytes_to_uint64 : Text → ℕ
unfolding read_big_endian
bytes_to_uint64 key = read_big_endian 0 key
