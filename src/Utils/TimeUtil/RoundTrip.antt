-- ===== src/Utils/TimeUtil/RoundTrip.antt =====
-- Durations of krypton/utils/time_util.cc on their way to the proto and back.
use vpn_libraries.Prelude.{
  ◌+◌, ◌*◌, ◌/◌, ◌%◌, ◌≤◌, ◌<◌, ◌≡◌, refl, sym, ap, ◌∙◌, ◌↔◌, ◌⊎◌, inl, inr, true, arith,
}
use vpn_libraries.Prelude.Int.{
  ℤ, pos, negsuc, pos_part, neg_part, quot, rem, ◌+ℤ◌, +ℤ_parts, eq_of_parts,
}
use vpn_libraries.Utils.Status.{Status, value, is_ok}
use vpn_libraries.Utils.TimeUtil.{
  finite, ProtoDuration, validate_duration, to_proto_duration, validated, scale, split,
  duration_from_proto, max_seconds, max_nanos, nanos_per_second,
}

-- Quotient and remainder have one sign, and the quotient's magnitude is that of a division.
quot_parts :
    (d : ℤ)
    → (pos_part (quot d nanos_per_second) ≡ pos_part d / nanos_per_second)
      × (neg_part (quot d nanos_per_second) ≡ neg_part d / nanos_per_second)
unfolding quot
quot_parts (pos n) = (ground arith, ground arith)
quot_parts (negsuc n) = (ground arith, ground arith)

rem_parts :
    (d : ℤ)
    → (pos_part (rem d nanos_per_second) ≡ pos_part d % nanos_per_second)
      × (neg_part (rem d nanos_per_second) ≡ neg_part d % nanos_per_second)
unfolding rem
rem_parts (pos n) = (ground arith, ground arith)
rem_parts (negsuc n) = (ground arith, ground arith)

scale_parts :
    (z : ℤ)
    → pos_part (scale z) + nanos_per_second * neg_part z
      ≡ neg_part (scale z) + nanos_per_second * pos_part z
unfolding scale
scale_parts (pos n) = ground arith
scale_parts (negsuc n) = ground arith

scale-quot_add_rem : (d : ℤ) → scale (quot d nanos_per_second) +ℤ rem d nanos_per_second ≡ d
scale-quot_add_rem d = eq_of_parts _ d (
    omega (
      arith,
      quot_parts d,
      rem_parts d,
      scale_parts (quot d nanos_per_second),
      +ℤ_parts (scale (quot d nanos_per_second)) (rem d nanos_per_second),
    ))

validated-value :
    (p : ProtoDuration) (s : Status) {q : ProtoDuration}
    → validated p s ≡ value q
    → (p ≡ q) × (is_ok s ≡ true)
validated-value p s h = ground arith

duration_from_proto_lem :
    (p : ProtoDuration)
    → is_ok (validate_duration p) ≡ true
    → duration_from_proto p ≡ value (scale p.seconds +ℤ p.nanos)
unfolding duration_from_proto
duration_from_proto_lem p h = rw h

-- A duration that the proto can hold is read back as it was.
pub duration_round_trip :
    (d : ℤ) {p : ProtoDuration}
    → to_proto_duration (finite d) ≡ value p
    → duration_from_proto p ≡ value d
unfolding to_proto_duration
duration_round_trip d {p} h =
    let (e, good) = validated-value _ _ h in
    ap duration_from_proto (sym e)
    ∙ duration_from_proto_lem _ good
    ∙ ap value (scale-quot_add_rem d)

-- What validate_duration demands of the seconds, and what is enough for it.
validate_ok_seconds :
    (p : ProtoDuration)
    → is_ok (validate_duration p) ≡ true
    → (pos_part p.seconds ≤ max_seconds) × (neg_part p.seconds ≤ max_seconds)
unfolding validate_duration
validate_ok_seconds p v = ground arith

validate_ok :
    (p : ProtoDuration)
    → pos_part p.seconds ≤ max_seconds
    → neg_part p.seconds ≤ max_seconds
    → pos_part p.nanos ≤ max_nanos
    → neg_part p.nanos ≤ max_nanos
    → (pos_part p.seconds + pos_part p.nanos ≡ 0) ⊎ (neg_part p.seconds + neg_part p.nanos ≡ 0)
    → is_ok (validate_duration p) ≡ true
unfolding validate_duration
validate_ok p a b c d e = ground arith

one_sign : (d : ℤ) → (pos_part d ≡ 0) ⊎ (neg_part d ≡ 0)
one_sign (pos n) = inr refl
one_sign (negsuc n) = inl refl

validate-split_ok :
    (d : ℤ)
    → (pos_part d < (max_seconds + 1) * nanos_per_second)
    → (neg_part d < (max_seconds + 1) * nanos_per_second)
    → is_ok (validate_duration (split d)) ≡ true
unfolding split
validate-split_ok d h k =
    let q = quot_parts d in
    let r = rem_parts d in
    validate_ok (split d) (omega arith) (omega arith) (omega arith) (omega arith)
      (omega (arith, one_sign d))

-- The conversion succeeds exactly below 315576000001 seconds on either side of 0.
pub to_proto_duration_ok_iff :
    (d : ℤ)
    → ((p : ProtoDuration) × (to_proto_duration (finite d) ≡ value p)) ↔ (
        (pos_part d < (max_seconds + 1) * nanos_per_second)
        × (neg_part d < (max_seconds + 1) * nanos_per_second))
unfolding to_proto_duration split
to_proto_duration_ok_iff d = (
  λ h.
      let v = validate_ok_seconds (split d) (validated-value _ _ h.1).1 in
      (omega (arith, quot_parts d), omega (arith, quot_parts d)),
  λ h. (split d, rw (validate-split_ok d h.0 h.1)),
)
