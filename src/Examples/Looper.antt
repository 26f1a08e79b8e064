-- ===== src/Examples/Looper.antt =====
-- Runs of krypton/utils/looper.cc, krypton/http_fetcher.cc and datapath/android_ipsec/mtu_tracker.cc.
use vpn_libraries.Prelude.{ℕ, ◌+◌, ◌≡◌, refl, true, false, some, none, List, [], ◌∷◌, ◌++◌, length}
use vpn_libraries.Prelude.Int.{pos, ◌-ℤ◌}
use vpn_libraries.Utils.Looper
use vpn_libraries.Utils.Looper.{
  LooperThread, new_looper, loops_for, posts, adds_cleanup, stops, loops,
}
use vpn_libraries.Utils.Looper.Order.{accepted}
use vpn_libraries.Utils.Looper.Joined.{joined_ran_all}
use vpn_libraries.Utils.Looper.Drain.{looper_drains}
use vpn_libraries.HttpFetcher
use vpn_libraries.HttpFetcher.{new_http_fetcher, cancel_async, begins, answers}
use vpn_libraries.HttpFetcher.Cancel.{cancel_async_silences, post_json_async_overtakes}
use vpn_libraries.Datapath.MtuTracker
use vpn_libraries.Datapath.MtuTracker.{new_mtu_tracker, overhead_of, ipv6, uplink, downlink}
use vpn_libraries.Datapath.MtuTracker.Least.{
  least_uplink, least_downlink, last_uplink, last_downlink, run_is_least,
}

-- Two closures and a cleanup handler; the third closure comes after the stop. The thread runs on.
abbrev history : List (Looper.Event ℕ)
history =
    posts 1
    ∷ adds_cleanup 9
    ∷ loops
    ∷ posts 2
    ∷ loops
    ∷ stops
    ∷ posts 3
    ∷ loops
    ∷ loops
    ∷ loops
    ∷ loops
    ∷ loops
    ∷ []

history_stopped : (Looper.run history new_looper).stopped ≡ true
unfolding Looper.run new_looper
history_stopped = refl

joined_ran_all_example : (Looper.run history new_looper).ran ≡ accepted false history
joined_ran_all_example = joined_ran_all history history_stopped

-- The thread has not started when the stop comes.
abbrev early_stop : List (Looper.Event ℕ)
early_stop = posts 1 ∷ posts 2 ∷ stops ∷ []

early_lameduck : (Looper.run early_stop new_looper).lameduck ≡ true
unfolding Looper.run new_looper
early_lameduck = refl

looper_drains_example :
    let l = Looper.run early_stop new_looper in
    let m = Looper.run (loops_for (4 + length l.queue + length l.cleanup_queue)) l in
    (m.stopped ≡ true) × (m.ran ≡ l.ran ++ l.queue)
looper_drains_example = looper_drains early_stop early_lameduck

-- A fetcher whose request 7 with callback 1 is running, while an earlier response waits to be called.
abbrev running_fetcher : HttpFetcher.HttpFetcher ℕ ℕ ℕ
running_fetcher = record {
  infos = record { cancelled = false; callback = some 1 } ∷ [];
  callback_info = some 0;
  thread = [];
  running = some (7, some 0);
  notification_thread = (5, 200) ∷ [];
  called = [];
}

cancel_async_silences_example :
    let f =
      HttpFetcher.run
        (answers 200 ∷ HttpFetcher.calls ∷ begins ∷ [])
        (cancel_async running_fetcher) in
    f.called ++ f.notification_thread ≡ (5, 200) ∷ []
cancel_async_silences_example =
    cancel_async_silences running_fetcher (answers 200 ∷ HttpFetcher.calls ∷ begins ∷ []) refl
      (tt, (tt, (tt, tt)))

abbrev idle_fetcher : HttpFetcher.HttpFetcher ℕ ℕ ℕ
idle_fetcher = record {
  infos = [];
  callback_info = none;
  thread = [];
  running = none;
  notification_thread = [];
  called = [];
}

post_json_async_overtakes_example :
    (HttpFetcher.run
      (HttpFetcher.posts 7 1
        ∷ HttpFetcher.posts 8 2
        ∷ begins
        ∷ answers 200
        ∷ begins
        ∷ answers 404
        ∷ [])
      idle_fetcher).notification_thread
    ≡ (2, 200) ∷ (2, 404) ∷ []
post_json_async_overtakes_example = post_json_async_overtakes idle_fetcher 7 8 1 2 200 404 refl refl

abbrev reports : List MtuTracker.Event
reports = uplink (pos 1400) ∷ downlink (pos 1350) ∷ uplink (pos 1450) ∷ uplink (pos 1300) ∷ []

run_is_least_example :
    let t = MtuTracker.run reports (new_mtu_tracker ipv6 (pos 1500)) in
    (t.uplink_mtu ≡ least_uplink reports (pos 1500))
    × (t.downlink_mtu ≡ least_downlink reports (pos 1500))
    × (t.tunnel_mtu ≡ t.uplink_mtu -ℤ pos (overhead_of ipv6))
    × (last_uplink t.posted none ≡ some (t.uplink_mtu, t.tunnel_mtu))
    × (last_downlink t.posted none ≡ some t.downlink_mtu)
run_is_least_example = run_is_least ipv6 (pos 1500) reports
