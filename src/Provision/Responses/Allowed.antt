-- ===== src/Provision/Responses/Allowed.antt =====
-- What the answers that krypton/auth_and_sign_response.cc accepts cannot contain.
use vpn_libraries.Prelude.{
  Bool, false, Option, none, some, List, ◌&&◌, ◌||◌, not, if◌then◌else◌, String, is_some,
}
use vpn_libraries.Prelude.Text.{Text, codes, is_empty, string_is_empty}
use vpn_libraries.Utils.Status.{StatusOr, value, error, ◌>>=◌, HttpResponse}
use vpn_libraries.Utils.Json.{JsonLibrary, string_to_json}
use vpn_libraries.Provision.Messages.{KryptonConfig, AuthAndSignProto}
use vpn_libraries.Prelude.{true, ◌≡◌, refl, arith, Bool-cases, inl, inr, Option-cases, subst}
use vpn_libraries.Provision.Responses.{
  AuthAndSignResponse, has_allowed_suffix, apn_type_is_expected, set_copper_hostname, decode_proto,
  checked_apn_type, hostname_field, decode_fields, decode_json_object, decode_json_body,
  auth_from_json, auth_and_sign_from_proto, parsed, json_text,
}

-- The hostname is empty or has a suffix of the configuration, and the APN type is empty or expected.
abbrev pub IsAllowed : KryptonConfig → AuthAndSignResponse → Type 0
IsAllowed config r =
    (is_empty r.copper_controller_hostname
        || has_allowed_suffix r.copper_controller_hostname config.copper_hostname_suffix
      ≡ true)
    × (is_empty r.apn_type || apn_type_is_expected r.apn_type ≡ true)

-- All that a result can hold is allowed.
AllAllowed : KryptonConfig → StatusOr AuthAndSignResponse → Type 0
AllAllowed config (value r) = IsAllowed config r
AllAllowed config (error s) = Unit

hostname-AllAllowed :
    (h : Text) (config : KryptonConfig) (r : AuthAndSignResponse)
    → IsAllowed config r
    → AllAllowed config (set_copper_hostname h config true r)
unfolding AllAllowed set_copper_hostname
hostname-AllAllowed h config r a = ground arith

-- A chain of steps whose last one allows.
bind-AllAllowed :
    {A : Type 0} (m : StatusOr A) (f : A → StatusOr AuthAndSignResponse) (config : KryptonConfig)
    → ((a : A) → AllAllowed config (f a))
    → AllAllowed config (m >>= f)
unfolding AllAllowed
bind-AllAllowed (value a) f config h = h a
bind-AllAllowed (error s) f config h = tt

if-AllAllowed :
    (c : Bool) (x y : StatusOr AuthAndSignResponse) (config : KryptonConfig)
    → AllAllowed config x
    → AllAllowed config y
    → AllAllowed config (if c then x else y)
if-AllAllowed true x y config h k = h
if-AllAllowed false x y config h k = k

proto-AllAllowed :
    (p : Option AuthAndSignProto) (config : KryptonConfig)
    → AllAllowed config (decode_proto p config true)
unfolding decode_proto AllAllowed
proto-AllAllowed none config = tt
proto-AllAllowed (some p) config =
    elim (Bool-cases (not (is_empty p.apn_type) && not (apn_type_is_expected p.apn_type))) [
      | inl e ↦ rw e tt
      | inr e ↦
          rw e (hostname-AllAllowed p.copper_controller_hostname config _ (refl, ground arith))
    ]

field-AllAllowed :
    (h : Option Text) (config : KryptonConfig) (r : AuthAndSignResponse)
    → IsAllowed config r
    → AllAllowed config (hostname_field h config true r)
unfolding hostname_field AllAllowed
field-AllAllowed none config r a = a
field-AllAllowed (some h) config r a = hostname-AllAllowed h config r a

checked_apn_lem :
    (o : Option Text) (s : Text)
    → checked_apn_type o ≡ value s
    → is_empty s || apn_type_is_expected s ≡ true
unfolding checked_apn_type
checked_apn_lem none s e = ground arith
checked_apn_lem (some t) s e = ground arith

with_apn-AllAllowed :
    (field : Option Text) (d : StatusOr Text) (signatures : Option (List Text))
    (region : Option Text) (hostname : StatusOr (Option Text)) (config : KryptonConfig)
    → checked_apn_type field ≡ d
    → AllAllowed config
        (decode_fields (value signatures) (value region) (value field) hostname config true)
unfolding decode_fields AllAllowed
with_apn-AllAllowed field (error s) signatures region hostname config e = rw e tt
with_apn-AllAllowed field (value apn) signatures region (error s) config e = rw e tt
with_apn-AllAllowed field (value apn) signatures region (value h) config e =
    rw e (field-AllAllowed h config _ (refl, checked_apn_lem field apn e))

fields-AllAllowed :
    (s : StatusOr (Option (List Text))) (r a h : StatusOr (Option Text)) (config : KryptonConfig)
    → AllAllowed config (decode_fields s r a h config true)
unfolding decode_fields AllAllowed
fields-AllAllowed (error s) r a h config = tt
fields-AllAllowed (value s) (error r) a h config = tt
fields-AllAllowed (value s) (value r) (error a) h config = tt
fields-AllAllowed (value s) (value r) (value a) h config =
    with_apn-AllAllowed a (checked_apn_type a) s r h config refl

module _ {J : Type 0} (json : JsonLibrary J) where
  object-AllAllowed :
      (j : J) (config : KryptonConfig) → AllAllowed config (decode_json_object json j config true)
  unfolding decode_json_object
  object-AllAllowed j config = fields-AllAllowed _ _ _ _ config

  body-AllAllowed :
      (j : J) (config : KryptonConfig) → AllAllowed config (decode_json_body json j config true)
  unfolding decode_json_body AllAllowed
  body-AllAllowed j config = if-AllAllowed (not (json.is_object j)) _ _ config tt (
      if-AllAllowed (is_some (json.find (codes "jwt") j)) _ _ config tt
        (object-AllAllowed j config))

  json-AllAllowed :
      (s : String) (config : KryptonConfig) → AllAllowed config (auth_from_json json s config true)
  unfolding auth_from_json AllAllowed
  json-AllAllowed s config = if-AllAllowed (string_is_empty s) _ _ config tt (
      bind-AllAllowed (parsed (string_to_json json s)) (λ j. decode_json_body json j config true)
        config (λ j. body-AllAllowed j config))

  response-AllAllowed :
      (parse_proto : String → Option AuthAndSignProto) (response : HttpResponse)
      (config : KryptonConfig)
      → AllAllowed config (auth_and_sign_from_proto json parse_proto response config true)
  unfolding auth_and_sign_from_proto
  response-AllAllowed parse_proto response config = elim (Option-cases response.proto_body) [
    | inl e ↦ rw e (json-AllAllowed (json_text response.json_body) config)
    | inr (bytes, e) ↦ rw e (proto-AllAllowed (parse_proto bytes) config)
  ]

  -- A response of the authentication server that is accepted while the suffix is enforced, in JSON or as
  -- a proto, names no control plane server outside the suffixes of the configuration, and no APN type
  -- but "ppn", "bridge" and the empty one.
  pub auth_and_sign_from_proto-IsAllowed :
      (parse_proto : String → Option AuthAndSignProto) (response : HttpResponse)
      (config : KryptonConfig) (r : AuthAndSignResponse)
      → auth_and_sign_from_proto json parse_proto response config true ≡ value r
      → IsAllowed config r
  unfolding AllAllowed
  auth_and_sign_from_proto-IsAllowed parse_proto response config r e =
      subst (λ d. AllAllowed config d) e (response-AllAllowed parse_proto response config)
