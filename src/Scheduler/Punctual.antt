-- ===== src/Scheduler/Punctual.antt =====
-- The scheduler of source/src/scheduler.cpp hands no event over before its time.
use otg_premium_version.Common.{
  ℕ, zero, suc, ◌≤◌, Option, Bool, true, false, ◌&&◌, ◌||◌, not, none, some, List, [], ◌∷◌, leb,
  ◌≡◌, refl, arith, Option-cases, Bool-cases, inl, inr,
}
use mathlib.Core.Option.{some-injective}
use mathlib.Core.Path.{subst}
use otg_premium_version.Scheduler.{
  SchedulerTask, Scheduler, add_event, stop_event, shutdown, get, none_before, top, wait, take_top,
  wake, Event, adds, stops, shuts, waits, notified, wakes, hands, hand_over, step, run, start,
}

-- Whether an event of the queue is due at a time.
unfoldable pub due_by : ℕ → List SchedulerTask → Bool
due_by time [] = false
due_by time (t ∷ ts) = leb t.cycle time || due_by time ts

-- Whether each event was handed over at its time or later.
unfoldable pub on_time : List (ℕ × SchedulerTask) → Bool
on_time [] = true
on_time ((now, t) ∷ ds) = leb t.cycle now && on_time ds

-- Whether the event in hand was taken at its time or later.
unfoldable in_time : Option (ℕ × SchedulerTask) → Bool
in_time none = true
in_time (some (now, t)) = leb t.cycle now

abbrev is_empty : List SchedulerTask → Bool
is_empty [] = true
is_empty (t ∷ ts) = false

-- The time that the thread waits for is late enough for an event of the queue, unless the
-- scheduler is shut down.
unfoldable sound_wait : Scheduler → Bool
unfolding due_by
sound_wait s = elim s.waiting [
  | none ↦ true
  | some until ↦ due_by until s.event_list || (not s.running && is_empty s.event_list)
]

unfoldable is_punctual : Scheduler → Bool
unfolding sound_wait on_time in_time
is_punctual s = sound_wait s && in_time s.taken && on_time s.dispatched

due_by-none_before :
    (time c : ℕ) (ts : List SchedulerTask)
    → due_by time ts ≡ true
    → none_before c ts ≡ true
    → c ≤ time
unfolding due_by none_before
due_by-none_before time c [] d n = absurd (ground arith)
due_by-none_before time c (t ∷ ts) d n = elim (Bool-cases (leb t.cycle time)) [
  | inl e ↦ ground arith
  | inr e ↦ due_by-none_before time c ts (ground arith) (ground arith)
]

due_by-get :
    (i : ℕ) (ts : List SchedulerTask) {t : SchedulerTask}
    → get i ts ≡ some t
    → due_by t.cycle ts ≡ true
unfolding due_by get
due_by-get i [] h = absurd (ground arith)
due_by-get zero (u ∷ ts) h = ground arith
due_by-get (suc i) (u ∷ ts) h = ground (arith, due_by-get i ts h)

top_of :
    (i : ℕ) (ts : List SchedulerTask) {t u : SchedulerTask}
    → get i ts ≡ some u
    → none_before u.cycle ts ≡ true
    → top i ts ≡ some t
    → some u ≡ some t
unfolding top
top_of i ts {t} {u} e b h = ground arith

top_cases :
    (i : ℕ) (ts : List SchedulerTask) {t : SchedulerTask}
    → top i ts ≡ some t
    → (get i ts ≡ some t) × (none_before t.cycle ts ≡ true)
unfolding top
top_cases i ts {t} h = elim (Option-cases (get i ts)) [
  | inl e ↦ absurd (ground arith)
  | inr (u, e) ↦ elim (Bool-cases (none_before u.cycle ts)) [
    | inl b ↦
        subst (λ x. (get i ts ≡ some x) × (none_before x.cycle ts ≡ true))
          (some-injective u t (top_of i ts e b h)) (e, b)
    | inr b ↦ absurd (ground arith)
  ]
]

add_event-is_punctual :
    (task : SchedulerTask) (s : Scheduler)
    → is_punctual s ≡ true
    → is_punctual (add_event task s).0 ≡ true
unfolding is_punctual sound_wait add_event due_by
add_event-is_punctual task s h = elim (Bool-cases s.running) [
  | inl e ↦ ground arith
  | inr e ↦ ground arith
]

stop_event-is_punctual :
    (id : ℕ) (s : Scheduler) → is_punctual s ≡ true → is_punctual (stop_event id s).0 ≡ true
unfolding is_punctual stop_event
stop_event-is_punctual id s h = ground arith

shutdown-is_punctual : (s : Scheduler) → is_punctual s ≡ true → is_punctual (shutdown s) ≡ true
unfolding is_punctual sound_wait shutdown due_by
shutdown-is_punctual s h = ground arith

wait-is_punctual : (i : ℕ) (s : Scheduler) → is_punctual s ≡ true → is_punctual (wait i s) ≡ true
unfolding is_punctual sound_wait wait
wait-is_punctual i s h = elim (Option-cases s.taken) [
  | inr (x, g) ↦ rw (g, wait) h
  | inl g ↦ elim (Option-cases (top i s.event_list)) [
    | inl e ↦ rw (g, e, wait) h
    | inr (t, e) ↦ ground (arith, g, due_by-get i s.event_list (top_cases i s.event_list e).0)
  ]
]

take_top-is_punctual :
    (now i : ℕ) (t : SchedulerTask) (s : Scheduler)
    → t.cycle ≤ now
    → in_time s.taken ≡ true
    → on_time s.dispatched ≡ true
    → is_punctual (take_top now i t s) ≡ true
unfolding is_punctual sound_wait take_top in_time
take_top-is_punctual now i t s h k d = ground arith

hand_over-is_punctual :
    (delay : ℕ) (s : Scheduler) → is_punctual s ≡ true → is_punctual (hand_over delay s) ≡ true
unfolding is_punctual sound_wait hand_over in_time on_time
hand_over-is_punctual delay s h = elim (Option-cases s.taken) [
  | inl e ↦ rw (e, hand_over) h
  | inr ((now, t), e) ↦ ground (arith, h, e)
]

kept : (s : Scheduler) → is_punctual s ≡ true → on_time s.dispatched ≡ true
unfolding is_punctual
kept s h = ground arith

kept_in_hand : (s : Scheduler) → is_punctual s ≡ true → in_time s.taken ≡ true
unfolding is_punctual
kept_in_hand s h = ground arith

is_empty-get :
    (i : ℕ) (ts : List SchedulerTask) {t : SchedulerTask} → get i ts ≡ some t → is_empty ts ≡ false
unfolding get
is_empty-get i [] h = absurd (ground arith)
is_empty-get i (u ∷ ts) h = refl

-- What is on top when the thread wakes is due.
top_is_due :
    (now i until : ℕ) (s : Scheduler) {t : SchedulerTask}
    → is_punctual s ≡ true
    → s.waiting ≡ some until
    → leb until now ≡ true
    → top i s.event_list ≡ some t
    → t.cycle ≤ now
unfolding is_punctual sound_wait
top_is_due now i until s {t} h w l e =
    let found = top_cases i s.event_list e in
    let due : due_by until s.event_list ≡ true =
      ground (arith, is_empty-get i s.event_list found.0) in
    let soon = due_by-none_before until t.cycle s.event_list due found.1 in ground arith

wake-is_punctual :
    (now i : ℕ) (s : Scheduler) → is_punctual s ≡ true → is_punctual (wake now i s) ≡ true
unfolding wake
wake-is_punctual now i s h = elim (Option-cases s.waiting) [
  | inl w ↦ rw (w, wake) h
  | inr (until, w) ↦ elim (Bool-cases (leb until now)) [
    | inr l ↦ rw (w, wake, l) h
    | inl l ↦ elim (Option-cases (top i s.event_list)) [
      | inl e ↦ rw (w, wake, l, e) h
      | inr (t, e) ↦
          rw (w, wake, l, e)
            (take_top-is_punctual now i t s (top_is_due now i until s h w l e) (kept_in_hand s h)
              (kept s h))
    ]
  ]
]

step-is_punctual :
    (e : Event) (s : Scheduler) → is_punctual s ≡ true → is_punctual (step e s) ≡ true
unfolding step is_punctual sound_wait
step-is_punctual (adds task) s h = add_event-is_punctual task s h
step-is_punctual (stops id) s h = stop_event-is_punctual id s h
step-is_punctual shuts s h = shutdown-is_punctual s h
step-is_punctual (waits i) s h = wait-is_punctual i s h
step-is_punctual notified s h = ground arith
step-is_punctual (wakes now i) s h = wake-is_punctual now i s h
step-is_punctual (hands delay) s h = hand_over-is_punctual delay s h

run-is_punctual :
    (es : List Event) (s : Scheduler) → is_punctual s ≡ true → is_punctual (run es s) ≡ true
unfolding run
run-is_punctual [] s h = h
run-is_punctual (e ∷ es) s h = run-is_punctual es (step e s) (step-is_punctual e s h)

-- Whatever threads do in whatever order from the start, no event is handed to the dispatcher before
-- its time.
pub run-on_time : (es : List Event) → on_time (run es start).dispatched ≡ true
unfolding is_punctual sound_wait on_time in_time
run-on_time es = kept (run es start) (run-is_punctual es start refl)
