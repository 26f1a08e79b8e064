-- ===== src/Provision/Crypto/Message.antt =====
-- The message that krypton/crypto/auth_crypto.cc draws, and the pointers that it follows.
use vpn_libraries.Prelude.{
  ℕ, suc, zero, ◌%◌, ◌≡◌, refl, ap, Bool, true, false, Option, none, some, List, [], ◌∷◌, ◌++◌, map,
  arith, length, get_elem?, get_elem?-some, leb, ◌&&◌, ◌||◌, is_some, if◌then◌else◌,
}
use vpn_libraries.Prelude.Text.{Text, codes}
use vpn_libraries.Utils.Status.{Status, StatusOr, value, error, is_ok}
use vpn_libraries.Provision.Crypto.{
  alphabet, letter, random_utf8_string, AuthCrypto, RsaLibrary, hash_with, blinder_with,
  verifier_with, bssl_with, validated_with, key_with, set_blinding_public_key,
}

-- A to Z, and a to z.
abbrev pub is_letter : ℕ → Bool
is_letter c = leb 65 c && leb c 90 || leb 97 c && leb c 122

abbrev all_letters : Text → Bool
all_letters [] = true
all_letters (c ∷ s) = is_letter c && all_letters s

get-is_letter :
    (s : Text) (i c : ℕ) → all_letters s ≡ true → get_elem? s i ≡ some c → is_letter c ≡ true
get-is_letter [] i c h e = ground arith
get-is_letter (d ∷ s) zero c h e = ground arith
get-is_letter (d ∷ s) (suc i) c h e = get-is_letter s i c (ground arith) e

letter-is_letter : (b : ℕ) → is_letter (letter b) ≡ true
letter-is_letter b =
    let g = get_elem?-some alphabet (b % 52) (omega arith) in
    let l = get-is_letter alphabet (b % 52) g.0 refl g.1 in rw g.1 l

length-map-letter : (bs : List ℕ) → length (map letter bs) ≡ length bs
length-map-letter [] = refl
length-map-letter (b ∷ bs) = ap suc (length-map-letter bs)

map-letters : (bs : List ℕ) → all_letters (map letter bs) ≡ true
map-letters [] = refl
map-letters (b ∷ bs) = ground (arith, letter-is_letter b, map-letters bs)

-- The message drawn from n random bytes is "blind:" and n letters behind it.
pub random_utf8_string_letters :
    (bytes : List ℕ)
    → (s : Text) × (random_utf8_string bytes ≡ codes "blind:" ++ s)
      × (length s ≡ length bytes)
      × (all_letters s ≡ true)
unfolding random_utf8_string
random_utf8_string_letters bytes =
    (map letter bytes, refl, length-map-letter bytes, map-letters bytes)

-- Where there is a blinder, there is a verifier.
abbrev pub HasVerifier : {V B : Type 0} → AuthCrypto V B → Type 0
HasVerifier k = is_some k.blinder ≡ true → is_some k.verifier ≡ true

module _ {X V B : Type 0} (rsa : RsaLibrary X V B) where
  hash-HasVerifier :
      (d : StatusOr Text) (k : AuthCrypto V B) → HasVerifier k → HasVerifier (hash_with rsa d k).0
  unfolding hash_with
  hash-HasVerifier (error s) k h = h
  hash-HasVerifier (value d) k h = h

  blinder-HasVerifier :
      (d : StatusOr B) (pem : Text) (k : AuthCrypto V B)
      → is_some k.verifier ≡ true
      → HasVerifier (blinder_with rsa d pem k).0
  unfolding blinder_with
  blinder-HasVerifier (error s) pem k h = λ _. h
  blinder-HasVerifier (value b) pem k h =
      hash-HasVerifier (rsa.sha256 pem) (record k { blinder = some b }) (λ _. h)

  verifier-HasVerifier :
      (d : StatusOr V) (x : X) (pem : Text) (k : AuthCrypto V B)
      → HasVerifier k
      → HasVerifier (verifier_with rsa d x pem k).0
  unfolding verifier_with
  verifier-HasVerifier (error s) x pem k h = h
  verifier-HasVerifier (value v) x pem k h =
      blinder-HasVerifier (rsa.blind k.original_message x) pem (record k { verifier = some v }) refl

  if-HasVerifier :
      (c : Bool) (x y : AuthCrypto V B × Status)
      → HasVerifier x.0
      → HasVerifier y.0
      → HasVerifier (if c then x else y).0
  if-HasVerifier true x y h k = h
  if-HasVerifier false x y h k = k

  bssl-HasVerifier :
      (d : StatusOr Bool) (x : X) (pem : Text) (k : AuthCrypto V B)
      → HasVerifier k
      → HasVerifier (bssl_with rsa d x pem k).0
  unfolding bssl_with
  bssl-HasVerifier (error s) x pem k h = h
  bssl-HasVerifier (value there) x pem k h =
      if-HasVerifier there _ _ (verifier-HasVerifier (rsa.new_verifier x) x pem k h) h

  validated-HasVerifier :
      (x : X) (pem : Text) (k : AuthCrypto V B)
      → HasVerifier k
      → HasVerifier (validated_with rsa x pem k).0
  unfolding validated_with
  validated-HasVerifier x pem k h =
      if-HasVerifier (is_ok (rsa.validate_modulus x)) _ _
        (if-HasVerifier (is_ok (rsa.validate_public_exponent x)) _ _
          (bssl-HasVerifier (rsa.has_bssl_key x) x pem k h) h)
        h

  key-HasVerifier :
      (d : StatusOr (Option X)) (pem : Text) (k : AuthCrypto V B)
      → HasVerifier k
      → HasVerifier (key_with rsa d pem k).0
  unfolding key_with
  key-HasVerifier (error s) pem k h = h
  key-HasVerifier (value none) pem k h = h
  key-HasVerifier (value (some x)) pem k h = validated-HasVerifier x pem k h

  -- Whichever step of SetBlindingPublicKey fails, the key material never has a blinder without the
  -- verifier that GetBrassUnblindedToken calls next.
  pub set_blinding_public_key-HasVerifier :
      (pem : Text) (k : AuthCrypto V B)
      → HasVerifier k
      → HasVerifier (set_blinding_public_key rsa pem k).0
  unfolding set_blinding_public_key
  set_blinding_public_key-HasVerifier pem k h =
      key-HasVerifier (rsa.parse_rsa_public_key pem) pem k h
