-- ===== src/Provision/Crypto.antt =====
-- krypton/crypto/auth_crypto.cc: the blinding of the message that is spent for a session. Tink and
-- BoringSSL, and the wrappers of crypto/rsa_fdh_blinder.cc around them, are parameters.
pub mod Message
use vpn_libraries.Prelude.{
  ℕ, ◌%◌, ◌≡◌, Bool, true, Option, none, some, List, [], ◌++◌, map, if◌then◌else◌, is_some,
  get_elem?,
}
use vpn_libraries.Prelude.Text.{Text, codes, is_empty}
use vpn_libraries.Utils.Status.{
  Status, StatusOr, value, error, ok_status, error_status, failed_precondition, is_ok,
}

-- kAlphabet.
abbrev pub alphabet : Text
alphabet = codes "abcdefghijklmnopqrstuvwxyzABCDEFGHIJKLMNOPQRSTUVWXYZ"

abbrev alphabet_size : ℕ
alphabet_size = 52

-- alphabet[i]; what lies behind the end is no character.
abbrev char_or_nul : Option ℕ → ℕ
char_or_nul none = 0
char_or_nul (some c) = c

abbrev pub letter : ℕ → ℕ
letter byte = char_or_nul (get_elem? alphabet (byte % alphabet_size))

-- RandomUTF8String, from the random bytes that it draws.
unfoldable pub random_utf8_string : List ℕ → Text
random_utf8_string bytes = codes "blind:" ++ map letter bytes

-- X are RSA public keys as Tink reads them, V verifiers and B blinders.
pub record RsaLibrary (X V B : Type 0) : Type 0 where
  pub parse_rsa_public_key : Text → StatusOr (Option X)
  pub validate_modulus : X → Status
  pub validate_public_exponent : X → Status
  pub has_bssl_key : X → StatusOr Bool
  pub new_verifier : X → StatusOr V
  pub blind : Text → X → StatusOr B
  pub sha256 : Text → StatusOr Text
  pub blind_of : B → Text
  pub unblind : Text → B → StatusOr Text
  pub verify : V → Text → Text → Status
  pub base64_escape : Text → Text

pub record AuthCrypto (V B : Type 0) : Type 0 where
  pub blinder : Option B
  pub verifier : Option V
  pub original_message : Text
  pub public_key_hash : Text

-- The constructor, which draws 32 random bytes.
unfoldable pub new_auth_crypto : {V B : Type 0} → List ℕ → AuthCrypto V B
unfolding random_utf8_string
new_auth_crypto random = record {
  blinder = none;
  verifier = none;
  original_message = random_utf8_string random;
  public_key_hash = [];
}

module _ {X V B : Type 0} (rsa : RsaLibrary X V B) where
  hash_with : StatusOr Text → AuthCrypto V B → AuthCrypto V B × Status
  hash_with (error s) k = (k, s)
  hash_with (value hash) k = (record k { public_key_hash = hash }, ok_status)

  blinder_with : StatusOr B → Text → AuthCrypto V B → AuthCrypto V B × Status
  unfolding hash_with
  blinder_with (error s) pem k = (k, s)
  blinder_with (value b) pem k = hash_with (rsa.sha256 pem) (record k { blinder = some b })

  verifier_with : StatusOr V → X → Text → AuthCrypto V B → AuthCrypto V B × Status
  unfolding blinder_with
  verifier_with (error s) x pem k = (k, s)
  verifier_with (value v) x pem k =
      blinder_with (rsa.blind k.original_message x) pem (record k { verifier = some v })

  bssl_with : StatusOr Bool → X → Text → AuthCrypto V B → AuthCrypto V B × Status
  unfolding verifier_with
  bssl_with (error s) x pem k = (k, s)
  bssl_with (value there) x pem k =
      if there
      then verifier_with (rsa.new_verifier x) x pem k
      else (k, error_status failed_precondition "bssl_unique_rsa public key is null")

  validated_with : X → Text → AuthCrypto V B → AuthCrypto V B × Status
  unfolding bssl_with
  validated_with x pem k =
      let m = rsa.validate_modulus x in
      let e = rsa.validate_public_exponent x in
      if is_ok m
      then (if is_ok e then bssl_with (rsa.has_bssl_key x) x pem k else (k, e))
      else (k, m)

  key_with : StatusOr (Option X) → Text → AuthCrypto V B → AuthCrypto V B × Status
  unfolding validated_with
  key_with (error s) pem k = (k, s)
  key_with (value none) pem k = (k, error_status failed_precondition "RSA public key is null")
  key_with (value (some x)) pem k = validated_with x pem k

  unfoldable pub set_blinding_public_key : Text → AuthCrypto V B → AuthCrypto V B × Status
  unfolding key_with
  set_blinding_public_key pem k = key_with (rsa.parse_rsa_public_key pem) pem k

  escaped_blind : Option B → Option Text
  escaped_blind none = none
  escaped_blind (some b) = some (rsa.base64_escape (rsa.blind_of b))

  unfoldable pub get_zinc_blind_token : AuthCrypto V B → Option Text
  unfolding escaped_blind
  get_zinc_blind_token k = escaped_blind k.blinder

  unfoldable pub blind_signing_public_key_hash : AuthCrypto V B → Option Text
  blind_signing_public_key_hash k =
      if is_empty k.public_key_hash then none else some (rsa.base64_escape k.public_key_hash)

  -- The verifier is there wherever a blinder is; the source follows the pointer.
  verified : Option V → Text → StatusOr Text → Option Text
  verified v message (error s) = none
  verified none message (value signature) = none
  verified (some v) message (value signature) =
      if is_ok (rsa.verify v message signature) then some (rsa.base64_escape signature) else none

  unblinded : Option B → Option V → Text → Text → Option Text
  unfolding verified
  unblinded none v message signature = none
  unblinded (some b) v message signature = verified v message (rsa.unblind signature b)

  unfoldable pub get_brass_unblinded_token : Text → AuthCrypto V B → Option Text
  unfolding unblinded
  get_brass_unblinded_token signature k =
      unblinded k.blinder k.verifier k.original_message signature
