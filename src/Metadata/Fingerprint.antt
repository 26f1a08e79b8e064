-- ===== src/Metadata/Fingerprint.antt =====
-- common/cpp/public_metadata/fingerprint.cc. EVP_Digest and absl::StrCat of a number are parameters.
pub mod Injective
use vpn_libraries.Prelude.{
  ℕ, ◌+◌, ◌*◌, Option, none, some, List, [], ◌∷◌, ◌++◌, if◌then◌else◌, take,
}
use vpn_libraries.Prelude.Int.{ℤ, pos, eqb_ℤ}
use vpn_libraries.Prelude.Text.{Text}
use vpn_libraries.Utils.Status.{StatusOr, value, error, error_status, internal}
use vpn_libraries.Provision.Messages.{PublicMetadata}

-- absl::StrJoin.
unfoldable pub str_join : List Text → Text → Text
str_join [] separator = []
str_join (s ∷ []) separator = s
str_join (s ∷ t ∷ ts) separator = s ++ (separator ++ str_join (t ∷ ts) separator)

-- What memcpy puts into an integer of a little-endian machine.
unfoldable pub read_little_endian : Text → ℕ
read_little_endian [] = 0
read_little_endian (b ∷ bs) = b + 256 * read_little_endian bs

module _ (str_cat : ℤ → Text) where
  unfoldable pub omit_default : ℤ → Text
  omit_default z = if eqb_ℤ z (pos 0) then [] else str_cat z

  unfoldable pub fingerprint_input : PublicMetadata → Text
  unfolding str_join omit_default
  fingerprint_input m =
      str_join
        (m.country
          ∷ m.city_geo_id
          ∷ m.service_type
          ∷ omit_default m.expiration.seconds
          ∷ omit_default m.expiration.nanos
          ∷ omit_default m.debug_mode
          ∷ [])
        (b'|' ∷ [])

module _ (evp_sha256 : Text → Option Text) (str_cat : ℤ → Text) where
  unfoldable pub fingerprint_of : Option Text → StatusOr ℕ
  unfolding read_little_endian
  fingerprint_of none = error (error_status internal "EVP_Digest failed")
  fingerprint_of (some digest) = value (read_little_endian (take 8 digest))

  unfoldable pub fingerprint_public_metadata : PublicMetadata → StatusOr ℕ
  unfolding fingerprint_of fingerprint_input
  fingerprint_public_metadata m = fingerprint_of (evp_sha256 (fingerprint_input str_cat m))
