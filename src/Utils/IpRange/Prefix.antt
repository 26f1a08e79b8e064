-- ===== src/Utils/IpRange/Prefix.antt =====
-- Which ranges krypton/utils/ip_range.cc lets pass.
use vpn_libraries.Prelude.{
  ℕ, ◌≡◌, subst, Bool, true, Option, none, some, List, [], ◌∷◌, arith, Bool-cases, inl, inr, ltb,
  length,
}
use vpn_libraries.Prelude.Int.{ℤ, pos, ◌≤ℤ◌}
use vpn_libraries.Prelude.Text.{Text}
use vpn_libraries.Utils.Status.{StatusOr, value, error}
use vpn_libraries.Utils.IpRange.{
  Family, af_inet, af_inet6, NetLibrary, IpRange, with_prefix, parse_prefix, parse_splits,
  check_splits, is_valid_v4_address, is_valid_v6_address, parse,
}

abbrev pub bound : Family → ℕ
bound af_inet = 32
bound af_inet6 = 128

abbrev pub PrefixFits : ℕ → Option ℤ → Type 0
PrefixFits n none = Unit {0}
PrefixFits n (some p) = (pos 1 ≤ℤ p) × (p ≤ℤ pos n)

abbrev pub is_valid_address : NetLibrary → Family → Text → Bool
is_valid_address lib af_inet = is_valid_v4_address lib
is_valid_address lib af_inet6 = is_valid_v6_address lib

-- The address passes the test of its family, and the prefix, if there is one, fits it.
pub record IsWellFormed (lib : NetLibrary) (r : IpRange) : Type 0 where
  pub valid : is_valid_address lib r.family r.address ≡ true
  pub fits : PrefixFits (bound r.family) r.prefix

abbrev WellFormedResult : NetLibrary → StatusOr IpRange → Type 0
WellFormedResult lib (error s) = Unit {0}
WellFormedResult lib (value r) = IsWellFormed lib r

parse_prefix-WellFormed :
    (lib : NetLibrary) (f : Family) (ip : Text) (p : Option ℤ)
    → is_valid_address lib f ip ≡ true
    → WellFormedResult lib (parse_prefix lib f (pos (bound f)) ip p)
unfolding parse_prefix
parse_prefix-WellFormed lib f ip none v = tt
parse_prefix-WellFormed lib af_inet ip (some p) v = ground arith
parse_prefix-WellFormed lib af_inet6 ip (some p) v = ground arith

with_prefix-WellFormed :
    (lib : NetLibrary) (f : Family) (ip : Text) (rest : List Text)
    → is_valid_address lib f ip ≡ true
    → WellFormedResult lib (with_prefix lib f (pos (bound f)) ip rest)
unfolding with_prefix
with_prefix-WellFormed lib f ip [] v = record { valid = v; fits = tt }
with_prefix-WellFormed lib f ip (p ∷ rest) v =
    parse_prefix-WellFormed lib f ip (lib.simple_atoi p) v

parse_splits-WellFormed :
    (lib : NetLibrary) (ip : Text) (rest : List Text)
    → WellFormedResult lib (parse_splits lib ip rest)
unfolding parse_splits
parse_splits-WellFormed lib ip rest = elim (Bool-cases (is_valid_v4_address lib ip)) [
  | inl v4 ↦ rw v4 (with_prefix-WellFormed lib af_inet ip rest v4)
  | inr not4 ↦ elim (Bool-cases (is_valid_v6_address lib ip)) [
    | inl v6 ↦ rw (not4, v6) (with_prefix-WellFormed lib af_inet6 ip rest v6)
    | inr not6 ↦ rw (not4, not6) tt
  ]
]

check_splits-WellFormed :
    (lib : NetLibrary) (s : Text) (splits : List Text)
    → WellFormedResult lib (check_splits lib s splits)
unfolding check_splits
check_splits-WellFormed lib [] splits = tt
check_splits-WellFormed lib (c ∷ s) [] = tt
check_splits-WellFormed lib (c ∷ s) (ip ∷ rest) = elim (Bool-cases (ltb 1 (length rest))) [
  | inl many ↦ rw many tt
  | inr few ↦ rw few (parse_splits-WellFormed lib ip rest)
]

-- A range that is parsed has an address that is valid in the range's family, and a prefix, if any,
-- from 1 to 32 for IPv4 and from 1 to 128 for IPv6.
pub parse-IsWellFormed :
    (lib : NetLibrary) (s : Text) {r : IpRange} → parse lib s ≡ value r → IsWellFormed lib r
unfolding parse
parse-IsWellFormed lib s h = subst (WellFormedResult lib) h (check_splits-WellFormed lib s _)
