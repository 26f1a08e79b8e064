-- ===== src/Selector/Attempts.antt =====
-- How krypton/datapath_address_selector.cc hands the addresses out.
use vpn_libraries.Prelude.{
  ℕ, zero, suc, ◌+◌, ◌≤◌, ◌<◌, min, ◌≡◌, refl, inl, inr, true, false, Option, none, some, List, [],
  ◌∷◌, arith, length, get_elem?, get_elem?-some, Bool-cases,
}
use vpn_libraries.Prelude.Text.{Text}
use vpn_libraries.Utils.Status.{
  StatusCode, StatusOr, value, error, failed_precondition, resource_exhausted,
}
use vpn_libraries.Utils.IpRange.{NetLibrary}
use vpn_libraries.Selector.{
  Selector, select_datapath_address, endpoint_at, has_more_addresses, get_endpoint_from_host_port,
}

endpoint_at-some :
    (lib : NetLibrary) (ips : List Text) (i : ℕ) (ip : Text)
    → get_elem? ips i ≡ some ip
    → endpoint_at lib (get_elem? ips i) ≡ get_endpoint_from_host_port lib ip
unfolding endpoint_at
endpoint_at-some lib ips i ip e = rw e

-- While an address is left, a selection takes the next one and turns it into an endpoint.
select_next :
    (lib : NetLibrary) (s : Selector)
    → has_more_addresses s ≡ true
    → (ip : Text) × (get_elem? s.addresses s.datapath_attempts ≡ some ip)
      × (select_datapath_address lib s ≡ (
        record s { datapath_attempts = s.datapath_attempts + 1 },
        get_endpoint_from_host_port lib ip,
      ))
unfolding has_more_addresses select_datapath_address
select_next lib s h =
    let (ip, e) = get_elem?-some s.addresses s.datapath_attempts (ground arith) in
    (ip, e, ground (arith, endpoint_at-some lib s.addresses s.datapath_attempts ip e))

-- What a selection answers once no address is left.
abbrev done_code : List Text → StatusCode
done_code [] = failed_precondition
done_code (ip ∷ ips) = resource_exhausted

abbrev pub code_of {ℓ} : {A : Type ℓ} → StatusOr A → Option StatusCode
code_of (value a) = none
code_of (error e) = some e.code

-- Once none is left, a selection fails and changes nothing: with FAILED_PRECONDITION if there never
-- was an address, and otherwise with RESOURCE_EXHAUSTED.
select_done :
    (lib : NetLibrary) (s : Selector)
    → has_more_addresses s ≡ false
    → ((select_datapath_address lib s).0 ≡ s)
      × (code_of (select_datapath_address lib s).1 ≡ some (done_code s.addresses))
unfolding has_more_addresses select_datapath_address
select_done lib s h = (ground arith, ground arith)

-- `n` selections in a row.
abbrev pub select_times : NetLibrary → ℕ → Selector → Selector
select_times lib zero s = s
select_times lib (suc n) s = select_times lib n (select_datapath_address lib s).0

advanced : Selector → Selector
advanced s = record s { datapath_attempts = min (s.datapath_attempts + 1) (length s.addresses) }

select-advanced :
    (lib : NetLibrary) (s : Selector)
    → s.datapath_attempts ≤ length s.addresses
    → (select_datapath_address lib s).0 ≡ advanced s
unfolding select_datapath_address advanced
select-advanced lib s h = elim (Bool-cases (has_more_addresses s)) [
  | inl more ↦ unfold has_more_addresses in (ground arith)
  | inr done ↦ unfold has_more_addresses in (ground arith)
]

select_times_lem :
    (lib : NetLibrary) (n : ℕ) (s : Selector)
    → s.datapath_attempts ≤ length s.addresses
    → ((select_times lib n s).addresses ≡ s.addresses)
      × ((select_times lib n s).datapath_attempts
          ≡ min (s.datapath_attempts + n) (length s.addresses))
unfolding advanced
select_times_lem lib zero s h = (refl, omega arith)
select_times_lem lib (suc n) s h =
    let ih = select_times_lem lib n (advanced s) (omega arith) in
    rw (select_times, select-advanced lib s h) (ih.0, omega (arith, ih.1))

at_attempt : List Text → ℕ → Selector
at_attempt ips k = record { addresses = ips; datapath_attempts = k }

after_times :
    (lib : NetLibrary) (s : Selector) (k : ℕ)
    → s.datapath_attempts ≡ 0
    → select_times lib k s ≡ at_attempt s.addresses (min k (length s.addresses))
unfolding at_attempt
after_times lib s k z = let same = select_times_lem lib k s (omega arith) in ground (arith, same)

has_more : (ips : List Text) (k : ℕ) → k < length ips → has_more_addresses (at_attempt ips k) ≡ true
unfolding has_more_addresses at_attempt
has_more ips k h = ground arith

has_no_more : (ips : List Text) → has_more_addresses (at_attempt ips (length ips)) ≡ false
unfolding has_more_addresses at_attempt
has_no_more ips = ground arith

min_of_lt : (k n : ℕ) → k < n → min k n ≡ k
min_of_lt k n h = omega arith

min_of_le : (k n : ℕ) → n ≤ k → min k n ≡ n
min_of_le k n h = omega arith

-- After a reset the k-th selection, counted from 0, is answered with the endpoint of the k-th
-- address, where there are more than k.
pub selection :
    (lib : NetLibrary) (s : Selector) (k : ℕ)
    → s.datapath_attempts ≡ 0
    → k < length s.addresses
    → (ip : Text) × (get_elem? s.addresses k ≡ some ip)
      × ((select_datapath_address lib (select_times lib k s)).1
          ≡ get_endpoint_from_host_port lib ip)
unfolding at_attempt
selection lib s k z h =
    let (ip, e, sel) = select_next lib (at_attempt s.addresses k) (has_more s.addresses k h) in
    (ip, e, rw (after_times lib s k z, min_of_lt k _ h, sel))

-- After a reset, once every address was selected, every further selection is refused: with
-- FAILED_PRECONDITION if there never was an address, and with RESOURCE_EXHAUSTED otherwise.
pub selection_refused :
    (lib : NetLibrary) (s : Selector) (k : ℕ)
    → s.datapath_attempts ≡ 0
    → length s.addresses ≤ k
    → code_of (select_datapath_address lib (select_times lib k s)).1 ≡ some (done_code s.addresses)
unfolding at_attempt
selection_refused lib s k z h =
    let sel =
      select_done lib (at_attempt s.addresses (length s.addresses)) (has_no_more s.addresses) in
    rw (after_times lib s k z, min_of_le k _ h) sel.1
