-- ===== src/Utils/IpRange/HostPort.antt =====
-- Hosts and ports of krypton/utils/ip_range.cc, written and read back; and the ranges that parse.
use vpn_libraries.Prelude.{
  ℕ, suc, ◌+◌, ◌-◌, ◌≡◌, refl, false, none, some, [], ◌∷◌, ◌++◌, arith, length, drop, get_elem?,
  take-append,
}
use vpn_libraries.Prelude.Int.{ℤ}
use vpn_libraries.Prelude.Text.{Text}
use vpn_libraries.Utils.Status.{value}
use vpn_libraries.Utils.IpRange.{
  find, rfind, starts_with, parse_bracketed, parse_host_port, Family, af_inet, af_inet6, NetLibrary,
  IpRange, host_port_string, join_host_port,
}

-- A character that does not occur is not found.
find-append_here : (c : ℕ) (s t : Text) → find c s ≡ none → find c (s ++ c ∷ t) ≡ some (length s)
unfolding find
find-append_here c [] t h = ground arith
find-append_here c (x ∷ s) t h = ground (arith, find-append_here c s t)

rfind-append_here : (c : ℕ) (s t : Text) → rfind c t ≡ none → rfind c (s ++ c ∷ t) ≡ some (length s)
unfolding rfind
rfind-append_here c [] t h = ground arith
rfind-append_here c (x ∷ s) t h = ground (arith, rfind-append_here c s t h)

get_elem?-after : (s t : Text) (x : ℕ) → get_elem? (s ++ x ∷ t) (suc (length s)) ≡ get_elem? t 0
get_elem?-after [] t x = refl
get_elem?-after (y ∷ s) t x = get_elem?-after s t x

drop-after : (s t : Text) (x : ℕ) → drop (suc (length s)) (s ++ x ∷ t) ≡ t
drop-after [] t x = refl
drop-after (y ∷ s) t x = drop-after s t x

drop-after_two : (s t : Text) (x y : ℕ) → drop (suc (suc (length s))) (s ++ x ∷ y ∷ t) ≡ t
drop-after_two [] t x y = refl
drop-after_two (z ∷ s) t x y = drop-after_two s t x y

parse_bracketed_at :
    (host port : Text) (n : ℕ)
    → n ≡ length host
    → parse_bracketed (b'[' ∷ (host ++ b']' ∷ b':' ∷ port)) (some (suc n)) ≡ value (host, port)
unfolding parse_bracketed
parse_bracketed_at host port n e =
    let after : suc n + 1 ≡ suc (suc (length host)) = omega arith in
    let inside : suc n - 1 ≡ length host = omega arith in
    let behind : suc n + 2 ≡ suc (suc (suc (length host))) = omega arith in
    rw (
      after,
      inside,
      behind,
      get_elem?-after host (b':' ∷ port) b']',
      take-append host (b']' ∷ b':' ∷ port),
      drop-after_two host port b']' b':',
    )

-- A bracketed host comes back with its port, whatever the host is, if the port has no closing
-- bracket.
pub parse_host_port_bracketed :
    (host port : Text)
    → rfind b']' port ≡ none
    → parse_host_port (b'[' ∷ (host ++ b']' ∷ b':' ∷ port)) ≡ value (host, port)
unfolding parse_host_port
parse_host_port_bracketed host port h =
    let no_bracket : rfind b']' (b':' ∷ port) ≡ none = rw (h, rfind) in
    let here = rfind-append_here b']' host (b':' ∷ port) no_bracket in
    let next : length host + 1 ≡ suc (length host) = omega arith in
    rw (here, next) (parse_bracketed_at host port (length host) refl)

-- A host without brackets or colons comes back with its port, if the port has no colon either.
parse_host_port_bare :
    (host port : Text)
    → starts_with b'[' (host ++ b':' ∷ port) ≡ false
    → find b':' host ≡ none
    → find b':' port ≡ none
    → parse_host_port (host ++ b':' ∷ port) ≡ value (host, port)
unfolding parse_host_port
parse_host_port_bare host port s h k =
    let one : length host + 1 ≡ suc (length host) = omega arith in
    rw (
      s,
      find-append_here b':' host port h,
      one,
      drop-after host port b':',
      k,
      take-append host (b':' ∷ port),
    )

-- A host that is read back from a text of its family.
abbrev pub Readable : Family → Text → Text → Type 0
Readable af_inet host port =
    (starts_with b'[' (host ++ b':' ∷ port) ≡ false)
    × (find b':' host ≡ none)
    × (find b':' port ≡ none)
Readable af_inet6 host port = rfind b']' port ≡ none

join_round_trip :
    (f : Family) (host port : Text)
    → Readable f host port
    → parse_host_port (join_host_port f host port) ≡ value (host, port)
unfolding join_host_port
join_round_trip af_inet host port h = parse_host_port_bare host port h.0 h.1 h.2
join_round_trip af_inet6 host port h = parse_host_port_bracketed host port h

-- The text that HostPortString writes is read back as the address and the port: for IPv6 any address,
-- if the port has no closing bracket; for IPv4 an address that holds no colon and does not begin with
-- a bracket, if the port has no colon.
pub host_port_string_round_trip :
    (lib : NetLibrary) (r : IpRange) (port : ℤ)
    → Readable r.family r.address (lib.str_cat port)
    → parse_host_port (host_port_string lib r port) ≡ value (r.address, lib.str_cat port)
unfolding host_port_string
host_port_string_round_trip lib r port h = join_round_trip r.family r.address (lib.str_cat port) h
