-- ===== src/Selector/Order.antt =====
-- Which addresses krypton/datapath_address_selector.cc tries, and in which order.
use mathlib.Core.List.{Perm, perm_middle, append-nil}
use mathlib.Core.List.Perm
use vpn_libraries.Prelude.{
  ℕ, zero, suc, ◌+◌, ◌*◌, ◌≡◌, refl, ◌⊎◌, inl, inr, Bool, true, false, Option, List, [], ◌∷◌, ◌++◌,
  ◌&&◌, not, arith, if◌then◌else◌, length, get_elem?, ◌<◌, ◌||◌,
}
use vpn_libraries.Prelude.Text.{Text}
use vpn_libraries.Utils.IpRange.{NetLibrary, is_valid_v4_address, is_valid_v6_address}
use vpn_libraries.Runtime.{NetworkInfo}
use vpn_libraries.Selector.{
  SelectorConfig, split, interlace, repeated, reset, max_attempts_per_address_family, carries_v4,
  carries_v6,
}

-- Nothing is lost or made up when the two families are interlaced.
pub interlace-perm : (p : Bool) (xs ys : List Text) → Perm (interlace p xs ys) (xs ++ ys)
unfolding interlace
interlace-perm p [] ys = Perm.refl ys
interlace-perm p (x ∷ xs) [] = rw (append-nil xs) (Perm.refl (x ∷ xs))
interlace-perm true (x ∷ xs) (y ∷ ys) = Perm.trans (Perm.swap x y _) (
    Perm.cons x
      (Perm.trans (Perm.cons y (interlace-perm true xs ys)) (Perm.symm (perm_middle xs ys))))
interlace-perm false (x ∷ xs) (y ∷ ys) =
    Perm.cons x
      (Perm.trans (Perm.cons y (interlace-perm false xs ys)) (Perm.symm (perm_middle xs ys)))

-- The addresses that a network can use, one by one: an IPv6 address where IPv6 is enabled and the
-- network carries it, and an IPv4 address where IPv6 is disabled or the network carries IPv4.
abbrev pub is_usable : NetLibrary → SelectorConfig → Option NetworkInfo → Text → Bool
is_usable lib config network ip =
    if is_valid_v6_address lib ip
    then config.ipv6_enabled && carries_v6 network
    else is_valid_v4_address lib ip && (not config.ipv6_enabled || carries_v4 network)

abbrev pub keep : (Text → Bool) → List Text → List Text
keep p [] = []
keep p (x ∷ xs) = if p x then x ∷ keep p xs else keep p xs

split_cons :
    (lib : NetLibrary) (config : SelectorConfig) (network : Option NetworkInfo) (ip : Text)
    (ips : List Text)
    → ((is_usable lib config network ip ≡ true)
        × (split lib config network (ip ∷ ips)
            ≡ (ip ∷ (split lib config network ips).0, (split lib config network ips).1)))
      ⊎ ((is_usable lib config network ip ≡ true)
          × (split lib config network (ip ∷ ips)
              ≡ ((split lib config network ips).0, ip ∷ (split lib config network ips).1)))
      ⊎ ((is_usable lib config network ip ≡ false)
          × (split lib config network (ip ∷ ips) ≡ split lib config network ips))
unfolding split
split_cons lib config network ip ips = ground arith

split-perm :
    (lib : NetLibrary) (config : SelectorConfig) (network : Option NetworkInfo) (ips : List Text)
    → Perm
        ((split lib config network ips).0 ++ (split lib config network ips).1)
        (keep (is_usable lib config network) ips)
split-perm lib config network [] = unfold split in Perm.refl []
split-perm lib config network (ip ∷ ips) =
    let ih = split-perm lib config network ips in
    elim (split_cons lib config network ip ips) [
      | inl (u, e) ↦ rw (e, u) (Perm.cons ip ih)
      | inr (inl (u, e)) ↦ rw (e, u) (Perm.trans (perm_middle _ _) (Perm.cons ip ih))
      | inr (inr (u, e)) ↦ rw (e, u) ih
    ]

repeat-perm : (n : ℕ) (xs ys : List Text) → Perm xs ys → Perm (repeated n xs) (repeated n ys)
unfolding repeated
repeat-perm zero xs ys p = Perm.refl []
repeat-perm (suc n) xs ys p = Perm.append p (repeat-perm n xs ys p)

-- After a reset the addresses to try are the usable ones among those given, each as often as it was
-- given times the two attempts, and no others.
pub reset-perm :
    (lib : NetLibrary) (config : SelectorConfig) (ips : List Text) (network : Option NetworkInfo)
    → Perm
        (reset lib config ips network).addresses
        (repeated max_attempts_per_address_family (keep (is_usable lib config network) ips))
unfolding reset
reset-perm lib config ips network =
    let (ipv6, ipv4) = split lib config network ips in
    repeat-perm max_attempts_per_address_family _ _ (
      Perm.trans (interlace-perm (not config.bridge) ipv6 ipv4) (split-perm lib config network ips))

double_suc : (i : ℕ) → 2 * suc i ≡ suc (suc (2 * i))
double_suc i = omega arith

double_suc_add : (i : ℕ) → suc (suc (2 * i)) + 1 ≡ suc (suc (2 * i + 1))
double_suc_add i = omega arith

-- While both families last, the places alternate: the preferred family has the even ones and the other
-- the odd ones, each in the given order.
pub interlace_alternates :
    (prefer_ipv4 : Bool) (ipv6 ipv4 : List Text) (i : ℕ)
    → i < length ipv6
    → i < length ipv4
    → (get_elem? (interlace prefer_ipv4 ipv6 ipv4) (2 * i)
        ≡ get_elem? (if prefer_ipv4 then ipv4 else ipv6) i)
      × (get_elem? (interlace prefer_ipv4 ipv6 ipv4) (2 * i + 1)
          ≡ get_elem? (if prefer_ipv4 then ipv6 else ipv4) i)
unfolding interlace
interlace_alternates p [] ys i h k = elim h [ ]
interlace_alternates p (x ∷ xs) [] i h k = elim k [ ]
interlace_alternates true (x ∷ xs) (y ∷ ys) zero h k = (refl, refl)
interlace_alternates false (x ∷ xs) (y ∷ ys) zero h k = (refl, refl)
interlace_alternates true (x ∷ xs) (y ∷ ys) (suc i) h k =
    let ih = interlace_alternates true xs ys i (omega arith) (omega arith) in
    rw (double_suc i, double_suc_add i) ih
interlace_alternates false (x ∷ xs) (y ∷ ys) (suc i) h k =
    let ih = interlace_alternates false xs ys i (omega arith) (omega arith) in
    rw (double_suc i, double_suc_add i) ih
