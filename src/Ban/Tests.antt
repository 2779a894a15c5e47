-- ===== src/Ban/Tests.antt =====
-- Runs of the throttle of source/src/ban.cpp.
use otg_premium_version.Common.{true, false, [], ◌∷◌, ◌≡◌, refl, arith}
use otg_premium_version.Ban.{
  IpConnectMap, find, set, time_diff, at_most, attempt, accept_connection,
}
use otg_premium_version.Ban.Throttle.{
  accept_connection_lem, attempt_of, burst, all_accepted, burst-refused, accept_connection-waited,
  accept_connection-refused,
}

abbrev busy : IpConnectMap
busy =
    (7, record { last_attempt = 900; block_time = 0; count = 5 })
    ∷ (9, record { last_attempt = 100; block_time = 5000; count = 0 })
    ∷ []

sixth_attempt : accept_connection 7 1000 busy ≡ (
  (7, record { last_attempt = 1000; block_time = 4000; count = 0 })
      ∷ (9, record { last_attempt = 100; block_time = 5000; count = 0 })
      ∷ [],
  false,
)
unfolding accept_connection find set attempt at_most time_diff
sixth_attempt = refl

burst-refused_example : all_accepted 3 (1 ∷ 2 ∷ 3 ∷ 4 ∷ 5 ∷ 6 ∷ 7 ∷ []) busy ≡ false
unfolding burst
burst-refused_example = burst-refused 3 1 (2 ∷ 3 ∷ 4 ∷ 5 ∷ 6 ∷ 7 ∷ []) busy refl (omega arith)

accept_connection_lem_example :
    ((accept_connection 7 1000 busy).1 ≡ (attempt_of 1000 (find 7 busy)).1)
    × (find 9 (accept_connection 7 1000 busy).0 ≡ find 9 busy)
accept_connection_lem_example = accept_connection_lem 7 9 1000 busy

accept_connection-waited_example : (accept_connection 9 5000 busy).1 ≡ true
unfolding find
accept_connection-waited_example =
    accept_connection-waited 9 5000 busy refl (omega arith) (omega arith) (omega arith)

accept_connection-refused_example :
    (accept_connection 9 4200 (accept_connection 9 4000 busy).0).1 ≡ false
unfolding accept_connection find set attempt at_most time_diff
accept_connection-refused_example =
    accept_connection-refused 9 4000 4200 busy refl (omega arith) (omega arith) refl (omega arith)
