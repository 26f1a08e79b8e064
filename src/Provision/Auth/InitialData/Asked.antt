-- ===== src/Provision/Auth/InitialData/Asked.antt =====
-- What AuthenticatePublicMetadata of krypton/auth.cc comes to.
use vpn_libraries.Prelude.{refl, Bool, Option, none, some}
use vpn_libraries.Prelude.Text.{Text}
use vpn_libraries.Utils.Status.{StatusOr, value, error}
use vpn_libraries.Provision.Messages.{GetInitialDataResponse}
use vpn_libraries.Provision.Auth.{Auth, AuthEnv, Platform}
use vpn_libraries.Provision.Auth.Answers.{Tries, fail-Tries, send-Tries}
use vpn_libraries.Provision.Auth.InitialData.{
  send_metadata, metadata_attested, authenticate_public_metadata,
}

module _ {J C X V B : Type 0} (env : AuthEnv J C X V B) where
  attested-Tries :
      (r : GetInitialDataResponse) (t : Text) (d : StatusOr Text) (p : Platform) (k : Bool)
      (a : Auth C V B)
      → Tries a (metadata_attested env r t d p k a)
  unfolding metadata_attested send_metadata
  attested-Tries r t (error s) p k a = fail-Tries _ a
  attested-Tries r t (value d) p k a = send-Tries a _ _ _ refl refl refl refl

  pub metadata-Tries :
      (r : GetInitialDataResponse) (p : Platform) (k : Bool) (t : Text) (n : Option Text)
      (a : Auth C V B)
      → Tries a (authenticate_public_metadata env r p k t n a)
  unfolding authenticate_public_metadata send_metadata
  metadata-Tries r p k t none a = send-Tries a _ _ _ refl refl refl refl
  metadata-Tries r p k t (some n) a = attested-Tries r t (p.attestation_data n) p k a
