-- ===== src/Examples/Metadata.antt =====
-- Runs of common/cpp/public_metadata.
use vpn_libraries.Prelude.{ℕ, suc, zero, ◌≡◌, ◌≢◌, refl, sym, ◌∙◌, ap, true, [], ◌∷◌, arith}
use vpn_libraries.Prelude.Int.{ℤ, pos, negsuc}
use vpn_libraries.Prelude.Text.{Text, codes}
use vpn_libraries.Provision.Messages.{PublicMetadata}
use vpn_libraries.Metadata.Serialize.{uint64_to_bytes, bytes_to_uint64}
use vpn_libraries.Metadata.Serialize.Bytes.{uint64_round_trip, lt_bytes, uint64_to_bytes-lt}
use vpn_libraries.Metadata.Fingerprint.Injective.{
  NumberTexts, has_no_bar, fingerprint_input_injective,
}

uint64_round_trip_example : bytes_to_uint64 (uint64_to_bytes 81985529216486895) ≡ 81985529216486895
uint64_round_trip_example = uint64_round_trip 81985529216486895 (omega arith)

uint64_to_bytes-lt_example : lt_bytes (uint64_to_bytes 255) (uint64_to_bytes 256) ≡ true
uint64_to_bytes-lt_example = uint64_to_bytes-lt 255 256 (omega arith) (omega arith)

-- Numbers written in unary, behind a sign.
abbrev ones : ℕ → Text
ones zero = []
ones (suc n) = b'1' ∷ ones n

abbrev unary : ℤ → Text
unary (pos n) = b'+' ∷ ones n
unary (negsuc n) = b'-' ∷ ones n

ones_no_bar : (n : ℕ) → has_no_bar (ones n) ≡ true
ones_no_bar zero = refl
ones_no_bar (suc n) = ones_no_bar n

abbrev count : Text → ℕ
count [] = 0
count (c ∷ s) = suc (count s)

count-ones : (n : ℕ) → count (ones n) ≡ n
count-ones zero = refl
count-ones (suc n) = ap suc (count-ones n)

abbrev behind : Text → Text
behind [] = []
behind (c ∷ s) = s

abbrev first : Text → ℕ
first [] = 0
first (c ∷ s) = c

ones_injective : (m n : ℕ) → ones m ≡ ones n → m ≡ n
ones_injective m n e = sym (count-ones m) ∙ ap count e ∙ count-ones n

unary_no_bar : (z : ℤ) → has_no_bar (unary z) ≡ true
unary_no_bar (pos n) = ones_no_bar n
unary_no_bar (negsuc n) = ones_no_bar n

unary_not_empty : (z : ℤ) → unary z ≢ []
unary_not_empty (pos n) e = absurd (omega (arith, ap count e))
unary_not_empty (negsuc n) e = absurd (omega (arith, ap count e))

unary_injective : (y z : ℤ) → unary y ≡ unary z → y ≡ z
unary_injective (pos m) (pos n) e = ap pos (ones_injective m n (ap behind e))
unary_injective (pos m) (negsuc n) e = absurd (omega (arith, ap first e))
unary_injective (negsuc m) (pos n) e = absurd (omega (arith, ap first e))
unary_injective (negsuc m) (negsuc n) e = ap negsuc (ones_injective m n (ap behind e))

abbrev unary_texts : NumberTexts unary
unary_texts = record {
  no_bar = unary_no_bar;
  not_empty = unary_not_empty;
  injective = unary_injective;
}

abbrev zurich : PublicMetadata
zurich = record {
  country = codes "CH";
  city_geo_id = codes "1003297";
  service_type = codes "service";
  expiration = record { seconds = pos 900; nanos = pos 0 };
  debug_mode = pos 0;
}

fingerprint_input_injective_example :
    (zurich.country ≡ zurich.country)
    × (zurich.city_geo_id ≡ zurich.city_geo_id)
    × (zurich.service_type ≡ zurich.service_type)
    × (zurich.expiration ≡ zurich.expiration)
    × (zurich.debug_mode ≡ zurich.debug_mode)
fingerprint_input_injective_example =
    fingerprint_input_injective unary unary_texts zurich zurich (refl, refl, refl)
      (refl, refl, refl) refl
