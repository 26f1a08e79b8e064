-- ===== src/Utils/TimeUtil/Latency.antt =====
-- record_latency of krypton/utils/time_util.cc.
use vpn_libraries.Prelude.{◌≤◌, ◌≡◌, ◌≢◌, refl, List, ◌∷◌, [], arith, length, length-append}
use vpn_libraries.Prelude.Int.{ℤ}
use vpn_libraries.Utils.Status.{StatusOr, value, error}
use vpn_libraries.Utils.TimeUtil.{
  Time, at, infinite_past, ProtoDuration, record_latency, add_latency, to_proto_duration,
  validate_duration, since, latency_collection_limit,
}

at≢infinite_past : (t : ℤ) → at t ≢ infinite_past
at≢infinite_past t e = cc

add_latency-le_limit :
    (start : Time) (latencies : List ProtoDuration) (d : StatusOr ProtoDuration)
    → length latencies ≤ latency_collection_limit
    → length (add_latency start latencies d).1 ≤ latency_collection_limit
add_latency-le_limit start latencies (error s) h = h
add_latency-le_limit start latencies (value p) h = ground (arith, length-append latencies (p ∷ []))

-- The collection never outgrows its limit of five.
pub record_latency-le_limit :
    (now : ℤ) (start : Time) (latencies : List ProtoDuration)
    → length latencies ≤ latency_collection_limit
    → length (record_latency now start latencies).1 ≤ latency_collection_limit
unfolding record_latency
record_latency-le_limit now start latencies h =
    add_latency-le_limit start latencies (to_proto_duration (since now start)) h

nothing_from_past :
    (later : ℤ) (start : Time) (latencies : List ProtoDuration)
    → start ≡ infinite_past
    → record_latency later start latencies ≡ (start, latencies)
unfolding record_latency to_proto_duration validate_duration since
nothing_from_past later (at t) latencies e = absurd (at≢infinite_past t e)
nothing_from_past later infinite_past latencies e = refl

-- A measurement counts once: where a call has spent the start time, a second call, at any later
-- time, changes nothing.
pub record_latency_once :
    (now later : ℤ) (start : Time) (latencies : List ProtoDuration)
    → (record_latency now start latencies).0 ≡ infinite_past
    → record_latency later
        (record_latency now start latencies).0
        (record_latency now start latencies).1
      ≡ record_latency now start latencies
record_latency_once now later start latencies e = nothing_from_past later _ _ e
