-- ===== src/Scheduler/Tests.antt =====
-- Runs of the scheduler of source/src/scheduler.cpp.
use otg_premium_version.Common.{true, false, ◌≤◌, [], ◌∷◌, ◌≡◌, refl}
use otg_premium_version.Scheduler.{
  SchedulerTask, Scheduler, adds, waits, wakes, hands, hand_over, step, run, start, add_event,
  stop_event, wait, wake, top, get, none_before, take_top, remove_at, member, insert, erase,
  next_id,
}
use otg_premium_version.Scheduler.Punctual.{run-on_time, on_time}
use otg_premium_version.Scheduler.Stopped.{stop_event-run, gives, times_dispatched, in_hand}

abbrev late : SchedulerTask
late = record { event_id = 0; cycle = 90; func = 1 }

abbrev soon : SchedulerTask
soon = record { event_id = 0; cycle = 40; func = 2 }

-- The later event is queued first; the sooner one is handed over first.
soon_first :
    (run
      (adds late ∷ adds soon ∷ waits 0 ∷ wakes 41 0 ∷ hands 0 ∷ waits 0 ∷ wakes 95 0 ∷ hands 2 ∷ [])
      start).dispatched
    ≡ (97, record late { event_id = 1 }) ∷ (41, record soon { event_id = 2 }) ∷ []
unfolding run step add_event insert next_id member wait wake top get none_before take_top remove_at
    erase hand_over
soon_first = refl

run-on_time_example :
    on_time (run (adds late ∷ adds soon ∷ waits 0 ∷ wakes 41 0 ∷ hands 3 ∷ []) start).dispatched
    ≡ true
run-on_time_example = run-on_time (adds late ∷ adds soon ∷ waits 0 ∷ wakes 41 0 ∷ hands 3 ∷ [])

abbrev one_queued : Scheduler
one_queued = record start {
  last_event_id = 1;
  event_list = record soon { event_id = 1 } ∷ [];
  event_ids = 1 ∷ [];
}

-- stopEvent finds nothing to stop, and the event is handed over after it.
stopped_too_late : (stop_event 1 (wake 41 0 (wait 0 one_queued))).1 ≡ false
unfolding stop_event wait wake top get none_before take_top remove_at member erase
stopped_too_late = refl

stop_event-run_example :
    (0
      ≤ times_dispatched 1
          (run (waits 0 ∷ wakes 41 0 ∷ hands 0 ∷ []) (stop_event 1 one_queued).0).dispatched)
    × (times_dispatched 1
          (run (waits 0 ∷ wakes 41 0 ∷ hands 0 ∷ []) (stop_event 1 one_queued).0).dispatched
        ≤ 0)
unfolding gives times_dispatched in_hand
stop_event-run_example = stop_event-run 1 (waits 0 ∷ wakes 41 0 ∷ hands 0 ∷ []) one_queued refl refl
