-- ===== src/Scheduler/Stopped.antt =====
-- An event that was stopped is not handed over by the scheduler of source/src/scheduler.cpp.
use otg_premium_version.Common.{
  ℕ, ◌+◌, Bool, false, ◌&&◌, ◌||◌, not, none, List, [], ◌∷◌, some, ◌≤◌, Option, ◌==◌, if◌then◌else◌,
  leb, ◌≡◌, refl, arith, Option-cases, Bool-cases, inl, inr, ap,
}
use otg_premium_version.Scheduler.{
  SchedulerTask, Scheduler, next_id, member, insert, erase, add_event, stop_event, shutdown, top,
  wait, take_top, wake, Event, adds, stops, shuts, waits, notified, wakes, hands, hand_over, step,
  run,
}

-- How many events of a number were handed over.
unfoldable pub times_dispatched : ℕ → List (ℕ × SchedulerTask) → ℕ
times_dispatched id [] = 0
times_dispatched id ((now, t) ∷ ds) = (if t.event_id == id then 1 else 0) + times_dispatched id ds

-- Whether the thread has an event of a number in hand, as a number.
unfoldable pub in_hand : ℕ → Option (ℕ × SchedulerTask) → ℕ
in_hand id none = 0
in_hand id (some (now, t)) = if t.event_id == id then 1 else 0

-- Whether a call of addEvent in the course of the steps gives out a number.
unfoldable pub gives : ℕ → List Event → Scheduler → Bool
unfolding add_event step
gives id [] s = false
gives id (adds task ∷ es) s = (add_event task s).1 == id || gives id es (add_event task s).0
gives id (e ∷ es) s = gives id es (step e s)

member-erase :
    (id other : ℕ) (ids : List ℕ)
    → member id (erase other ids) ≡ (not (other == id) && member id ids)
unfolding member erase
member-erase id other [] = ground arith
member-erase id other (i ∷ is) = ground (arith, member-erase id other is)

member-insert :
    (id other : ℕ) (ids : List ℕ) → member id (insert other ids) ≡ (other == id || member id ids)
unfolding member insert
member-insert id other ids = ground arith

-- A step takes no event of a number that is not active: what is handed over was in hand.
IsQuiet : ℕ → Scheduler → Scheduler → Type 0
IsQuiet id s s' =
    (member id s'.event_ids ≡ false)
    × (times_dispatched id s.dispatched ≤ times_dispatched id s'.dispatched)
    × (times_dispatched id s'.dispatched + in_hand id s'.taken
        ≤ times_dispatched id s.dispatched + in_hand id s.taken)

add_event-IsQuiet :
    (id : ℕ) (task : SchedulerTask) (s : Scheduler)
    → member id s.event_ids ≡ false
    → ((add_event task s).1 == id) ≡ false
    → IsQuiet id s (add_event task s).0
unfolding IsQuiet add_event
add_event-IsQuiet id task s h g = elim (Bool-cases s.running) [
  | inl e ↦ (
    ground (
      arith,
      member-insert id (if task.event_id == 0 then next_id s.last_event_id else task.event_id)
          s.event_ids,
    ),
    ground arith,
    ground arith,
  )
  | inr e ↦ (ground arith, ground arith, ground arith)
]

stop_event-IsQuiet :
    (id other : ℕ) (s : Scheduler)
    → member id s.event_ids ≡ false
    → IsQuiet id s (stop_event other s).0
unfolding IsQuiet stop_event
stop_event-IsQuiet id other s h =
    (ground (arith, member-erase id other s.event_ids), ground arith, ground arith)

take_top-IsQuiet :
    (id now i : ℕ) (t : SchedulerTask) (s : Scheduler)
    → member id s.event_ids ≡ false
    → IsQuiet id s (take_top now i t s)
unfolding IsQuiet take_top times_dispatched in_hand
take_top-IsQuiet id now i t s h =
    (ground (arith, member-erase id t.event_id s.event_ids), ground arith, ground arith)

wait-IsQuiet : (id i : ℕ) (s : Scheduler) → member id s.event_ids ≡ false → IsQuiet id s (wait i s)
unfolding IsQuiet wait
wait-IsQuiet id i s h = elim (Option-cases s.taken) [
  | inr (x, g) ↦ rw (g, wait) (h, omega arith, omega (arith, ap (in_hand id) g))
  | inl g ↦ elim (Option-cases (top i s.event_list)) [
    | inl e ↦ rw (g, e, wait) (h, omega arith, omega (arith, ap (in_hand id) g))
    | inr (t, e) ↦ rw (g, e, wait) (h, omega arith, omega (arith, ap (in_hand id) g))
  ]
]

hand_over-IsQuiet :
    (id delay : ℕ) (s : Scheduler)
    → member id s.event_ids ≡ false
    → IsQuiet id s (hand_over delay s)
unfolding IsQuiet hand_over times_dispatched in_hand
hand_over-IsQuiet id delay s h = elim (Option-cases s.taken) [
  | inl e ↦ rw (e, hand_over) (h, omega arith, omega (arith, ap (in_hand id) e))
  | inr ((now, t), e) ↦ rw (e, hand_over) (h, omega arith, omega arith)
]

wake-IsQuiet :
    (id now i : ℕ) (s : Scheduler) → member id s.event_ids ≡ false → IsQuiet id s (wake now i s)
unfolding IsQuiet wake
wake-IsQuiet id now i s h = elim (Option-cases s.waiting) [
  | inl w ↦ rw (w, wake) (h, omega arith, omega arith)
  | inr (until, w) ↦ elim (Bool-cases (leb until now)) [
    | inr l ↦ rw (w, wake, l) (h, omega arith, omega arith)
    | inl l ↦ elim (Option-cases (top i s.event_list)) [
      | inl e ↦ rw (w, wake, l, e) (h, omega arith, omega arith)
      | inr (t, e) ↦ rw (w, wake, l, e) (take_top-IsQuiet id now i t s h)
    ]
  ]
]

gives_first :
    (id : ℕ) (e : Event) (es : List Event) (s : Scheduler)
    → gives id (e ∷ es) s ≡ false
    → (gives id (e ∷ []) s ≡ false) × (gives id es (step e s) ≡ false)
unfolding gives step
gives_first id (adds task) es s g = ground arith
gives_first id (stops other) es s g = (refl, g)
gives_first id shuts es s g = (refl, g)
gives_first id (waits i) es s g = (refl, g)
gives_first id notified es s g = (refl, g)
gives_first id (wakes now i) es s g = (refl, g)
gives_first id (hands delay) es s g = (refl, g)

step-IsQuiet :
    (id : ℕ) (e : Event) (s : Scheduler)
    → member id s.event_ids ≡ false
    → gives id (e ∷ []) s ≡ false
    → IsQuiet id s (step e s)
unfolding step gives IsQuiet shutdown member
step-IsQuiet id (adds task) s h g = add_event-IsQuiet id task s h (ground arith)
step-IsQuiet id (stops other) s h g = stop_event-IsQuiet id other s h
step-IsQuiet id shuts s h g = (refl, omega arith, omega arith)
step-IsQuiet id (waits i) s h g = wait-IsQuiet id i s h
step-IsQuiet id notified s h g = (h, omega arith, omega arith)
step-IsQuiet id (wakes now i) s h g = wake-IsQuiet id now i s h
step-IsQuiet id (hands delay) s h g = hand_over-IsQuiet id delay s h

run-IsQuiet :
    (id : ℕ) (es : List Event) (s : Scheduler)
    → member id s.event_ids ≡ false
    → gives id es s ≡ false
    → IsQuiet id s (run es s)
unfolding run IsQuiet
run-IsQuiet id [] s h g = (h, omega arith, omega arith)
run-IsQuiet id (e ∷ es) s h g =
    let apart = gives_first id e es s g in
    let quiet = step-IsQuiet id e s h apart.0 in
    let rest = run-IsQuiet id es (step e s) quiet.0 apart.1 in
    (rest.0, omega (arith, quiet.1, rest.1), omega (arith, quiet.2, rest.2))

stop_event-gone :
    (id : ℕ) (s : Scheduler) → (id == 0) ≡ false → member id (stop_event id s).0.event_ids ≡ false
unfolding stop_event
stop_event-gone id s z = ground (arith, member-erase id id s.event_ids)

stop_event-kept :
    (id : ℕ) (s : Scheduler)
    → ((stop_event id s).0.dispatched ≡ s.dispatched) × ((stop_event id s).0.taken ≡ s.taken)
unfolding stop_event
stop_event-kept id s = (ground arith, ground arith)

-- After stopEvent of a number that is not 0, whatever the threads do in whatever order, until
-- addEvent gives the number out again no event of this number is handed over but the one, if any, that
-- the thread had already taken off the queue when stopEvent got the lock.
pub stop_event-run :
    (id : ℕ) (es : List Event) (s : Scheduler)
    → (id == 0) ≡ false
    → gives id es (stop_event id s).0 ≡ false
    → (times_dispatched id s.dispatched
        ≤ times_dispatched id (run es (stop_event id s).0).dispatched)
      × (times_dispatched id (run es (stop_event id s).0).dispatched
          ≤ times_dispatched id s.dispatched + in_hand id s.taken)
unfolding IsQuiet
stop_event-run id es s z g =
    let quiet = run-IsQuiet id es (stop_event id s).0 (stop_event-gone id s z) g in
    let kept = stop_event-kept id s in
    let before = ap (times_dispatched id) kept.0 in
    let hand = ap (in_hand id) kept.1 in
    (omega (arith, quiet.1, before), omega (arith, quiet.2, before, hand))
