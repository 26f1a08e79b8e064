-- ===== src/Utils/TimeUtil.antt =====
-- krypton/utils/time_util.cc. A finite absl::Duration, and a finite absl::Time since the Unix
-- epoch, is a whole number of nanoseconds; a time can also lie in the infinite past. What absl
-- keeps of a quarter of a nanosecond, and its saturation at 2^63 seconds, is left out.
pub mod RoundTrip
pub mod Latency
use vpn_libraries.Prelude.{
  ℕ, ◌+◌, ◌*◌, ◌≤◌, ◌≡◌, Bool, true, false, List, [], ◌∷◌, ◌++◌, ◌&&◌, ◌||◌, ltb, leb, ◌==◌,
  if◌then◌else◌, length,
}
use vpn_libraries.Prelude.Int.{
  ℤ, pos, negsuc, pos_part, neg_part, sub_ℕ, quot, rem, ltb_ℤ, ◌+ℤ◌, ◌-ℤ◌, eqb_ℤ,
}
use vpn_libraries.Utils.Status.{
  Status, StatusOr, value, error, ok_status, error_status, invalid_argument, is_ok,
}

pub data Duration : Type 0 where
  finite : ℤ → Duration
  infinite : Duration

pub data Time : Type 0 where
  at : ℤ → Time
  infinite_past : Time

abbrev pub nanos_per_second : ℕ
nanos_per_second = 1000000000

-- The difference of a finite time and a time.
unfoldable pub since : ℤ → Time → Duration
unfolding ◌-ℤ◌
since now (at t) = finite (now -ℤ t)
since now infinite_past = infinite

-- google::protobuf::Duration; a Timestamp has the same fields.
pub record ProtoDuration : Type 0 where
  pub seconds : ℤ
  pub nanos : ℤ

abbrev is_negative : ℤ → Bool
is_negative z = ltb_ℤ z (pos 0)

abbrev is_positive : ℤ → Bool
is_positive z = ltb_ℤ (pos 0) z

abbrev exceeds : ℤ → ℕ → Bool
exceeds z bound = ltb bound (pos_part z) || ltb bound (neg_part z)

abbrev pub max_seconds : ℕ
max_seconds = 315576000000

abbrev pub max_nanos : ℕ
max_nanos = 999999999

unfoldable pub validate_duration : ProtoDuration → Status
validate_duration d =
    if exceeds d.seconds max_seconds
    then error_status invalid_argument "seconds="
    else if exceeds d.nanos max_nanos
    then error_status invalid_argument "nanos="
    else if is_negative d.seconds && is_positive d.nanos
        || is_positive d.seconds && is_negative d.nanos
    then error_status invalid_argument "sign mismatch"
    else ok_status

abbrev validated : ProtoDuration → Status → StatusOr ProtoDuration
validated d s = if is_ok s then value d else error s

-- Whole seconds and the rest, both truncated towards 0.
split : ℤ → ProtoDuration
unfolding quot rem
split d = record { seconds = quot d nanos_per_second; nanos = rem d nanos_per_second }

-- At an infinite duration the quotient of
-- absl::IDivDuration is the largest int64, so the seconds are out of range.
unfoldable pub to_proto_duration : Duration → StatusOr ProtoDuration
unfolding validate_duration split
to_proto_duration (finite d) = validated (split d) (validate_duration (split d))
to_proto_duration infinite =
    let p : ProtoDuration = record { seconds = pos 9223372036854775807; nanos = negsuc 0 } in
    validated p (validate_duration p)

-- A Timestamp is stored as a duration since the epoch.
unfoldable pub to_proto_time : ℤ → StatusOr ProtoDuration
unfolding to_proto_duration
to_proto_time t = to_proto_duration (finite t)

scale : ℤ → ℤ
scale z = sub_ℕ (pos_part z * nanos_per_second) (neg_part z * nanos_per_second)

unfoldable pub duration_from_proto : ProtoDuration → StatusOr ℤ
unfolding validate_duration scale ◌+ℤ◌
duration_from_proto p =
    let s = validate_duration p in if is_ok s then value (scale p.seconds +ℤ p.nanos) else error s

-- `increments` in whole seconds.
unfoldable pub verify_timestamp_is_rounded : ProtoDuration → ℕ → Status
unfolding rem
verify_timestamp_is_rounded timestamp increments =
    if (if eqb_ℤ timestamp.nanos (pos 0)
      then eqb_ℤ (rem timestamp.seconds increments) (pos 0)
      else false)
    then ok_status
    else error_status invalid_argument "Expiry timestamp not in increments of "

abbrev pub latency_collection_limit : ℕ
latency_collection_limit = 5

abbrev add_latency : Time → List ProtoDuration → StatusOr ProtoDuration → Time × List ProtoDuration
add_latency start latencies (error s) = (start, latencies)
add_latency start latencies (value latency) =
    if leb latency_collection_limit (length latencies)
    then (start, latencies)
    else (infinite_past, latencies ++ latency ∷ [])

-- The start time and the collected latencies after the call; `now` is what absl::Now() returns.
unfoldable pub record_latency : ℤ → Time → List ProtoDuration → Time × List ProtoDuration
unfolding to_proto_duration since
record_latency now start latencies =
    add_latency start latencies (to_proto_duration (since now start))
