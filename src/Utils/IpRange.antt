-- ===== src/Utils/IpRange.antt =====
-- krypton/utils/ip_range.cc: hosts and ports in texts, and address ranges. The C library's inet_pton,
-- and absl's StrSplit, SimpleAtoi and StrCat of a number, are parameters.
pub mod HostPort
pub mod Prefix
use vpn_libraries.Prelude.{
  ℕ, ◌+◌, ◌-◌, ◌≤◌, ◌≡◌, Bool, true, false, Option, none, some, List, [], ◌∷◌, ◌++◌, ◌&&◌, ◌||◌,
  not, ltb, ◌==◌, if◌then◌else◌, length, take, drop, get_elem?, is_some,
}
use vpn_libraries.Prelude.Int.{ℤ, pos, ltb_ℤ, eqb_ℤ}
use vpn_libraries.Prelude.Text.{Text}
use vpn_libraries.Utils.Status.{
  Status, StatusOr, value, error, error_status, invalid_argument, failed_precondition,
}

-- std::string_view::find and rfind of one character.
abbrev next_index : Option ℕ → Option ℕ
next_index none = none
next_index (some i) = some (i + 1)

unfoldable pub find : ℕ → Text → Option ℕ
find c [] = none
find c (x ∷ s) = let rest = find c s in if x == c then some 0 else next_index rest

abbrev last_index : Bool → Option ℕ → Option ℕ
last_index here (some i) = some (i + 1)
last_index here none = if here then some 0 else none

unfoldable pub rfind : ℕ → Text → Option ℕ
rfind c [] = none
rfind c (x ∷ s) = last_index (x == c) (rfind c s)

-- absl::ClippedSubstr, which cuts what lies behind the end.
abbrev substr_from : Text → ℕ → Text
substr_from s start = drop start s

abbrev substr : Text → ℕ → ℕ → Text
substr s start n = take n (drop start s)

unfoldable pub starts_with : ℕ → Text → Bool
starts_with c [] = false
starts_with c (x ∷ s) = x == c

-- Whether a character other than `:` stands at the index.
bad_separator : Option ℕ → Bool
bad_separator none = false
bad_separator (some c) = not (c == b':')

parse_bracketed : Text → Option ℕ → StatusOr (Text × Text)
unfolding bad_separator
parse_bracketed host_port none =
    error (error_status invalid_argument "Unterminated [ in host-post: ")
parse_bracketed host_port (some rbracket) =
    if bad_separator (get_elem? host_port (rbracket + 1))
    then error (error_status invalid_argument "Missing : after ] in host-post: ")
    else value (substr host_port 1 (rbracket - 1), substr_from host_port (rbracket + 2))

-- Exactly one colon splits the text; otherwise it is a bare host.
parse_bare : Text → Option ℕ → StatusOr (Text × Text)
unfolding find
parse_bare host_port none = value (host_port, [])
parse_bare host_port (some colon) =
    if is_some (find b':' (drop (colon + 1) host_port))
    then value (host_port, [])
    else value (substr host_port 0 colon, substr_from host_port (colon + 1))

-- The host and the port. (Either out parameter of the source may be absent.)
unfoldable pub parse_host_port : Text → StatusOr (Text × Text)
unfolding parse_bracketed parse_bare starts_with find rfind
parse_host_port host_port =
    if starts_with b'[' host_port
    then parse_bracketed host_port (rfind b']' host_port)
    else parse_bare host_port (find b':' host_port)

pub data Family : Type 0 where
  af_inet af_inet6 : Family

-- The functions that are not the program's own.
pub record NetLibrary : Type 0 where
  pub inet_pton : Family → Text → ℤ
  pub str_split : Text → ℕ → List Text
  pub simple_atoi : Text → Option ℤ
  pub str_cat : ℤ → Text

pub record IpRange : Type 0 where
  pub family : Family
  pub address : Text
  pub prefix : Option ℤ

join_host_port : Family → Text → Text → Text
join_host_port af_inet address port = address ++ b':' ∷ port
join_host_port af_inet6 address port = b'[' ∷ (address ++ b']' ∷ b':' ∷ port)

-- IPRange::HostPortString.
unfoldable pub host_port_string : NetLibrary → IpRange → ℤ → Text
unfolding join_host_port
host_port_string lib r port = join_host_port r.family r.address (lib.str_cat port)

module _ (lib : NetLibrary) where
  host_is_valid : Family → StatusOr (Text × Text) → Bool
  host_is_valid f (error s) = false
  host_is_valid f (value (host, port)) = not (eqb_ℤ (lib.inet_pton f host) (pos 0))

  unfoldable pub is_valid_v4_address : Text → Bool
  unfolding host_is_valid
  is_valid_v4_address ip = is_some (find b'.' ip) && host_is_valid af_inet (parse_host_port ip)

  unfoldable pub is_valid_v6_address : Text → Bool
  unfolding host_is_valid
  is_valid_v6_address ip = is_some (find b':' ip) && host_is_valid af_inet6 (parse_host_port ip)

  parse_prefix : Family → ℤ → Text → Option ℤ → StatusOr IpRange
  parse_prefix f bound ip none = error (error_status invalid_argument "Invalid IP address range.")
  parse_prefix f bound ip (some prefix) =
      if ltb_ℤ prefix (pos 1) || ltb_ℤ bound prefix
      then error (error_status invalid_argument "IP address range out of range.")
      else value (record { family = f; address = ip; prefix = some prefix })

  -- What stands behind the slash, if anything does.
  with_prefix : Family → ℤ → Text → List Text → StatusOr IpRange
  unfolding parse_prefix
  with_prefix f bound ip [] = value (record { family = f; address = ip; prefix = none })
  with_prefix f bound ip (p ∷ _) = parse_prefix f bound ip (lib.simple_atoi p)

  parse_splits : Text → List Text → StatusOr IpRange
  unfolding with_prefix
  parse_splits ip rest =
      if is_valid_v4_address ip
      then with_prefix af_inet (pos 32) ip rest
      else if is_valid_v6_address ip
      then with_prefix af_inet6 (pos 128) ip rest
      else error (error_status failed_precondition "IPRange is neither v4 or v6")

  check_splits : Text → List Text → StatusOr IpRange
  unfolding parse_splits
  check_splits [] splits = error (error_status invalid_argument "IP address cannot be null")
  check_splits (c ∷ s) [] = error (error_status invalid_argument "IPRange is not valid")
  check_splits (c ∷ s) (ip ∷ rest) =
      if ltb 1 (length rest)
      then error (error_status invalid_argument "IPRange is not valid")
      else parse_splits ip rest

  -- IPRange::Parse.
  unfoldable pub parse : Text → StatusOr IpRange
  unfolding check_splits
  parse ip_range = check_splits ip_range (lib.str_split ip_range b'/')
