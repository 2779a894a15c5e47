-- ===== src/Scheduler.antt =====
-- source/src/scheduler.cpp and scheduler.h: the queue of events to come, the thread that hands them
-- to the dispatcher when they are due, and the calls of other threads in between.
-- Each step is what happens under the lock at once. The thread keeps the time it waits for. What
-- std::priority_queue has on top among events of the same time is open: a step names the event by
-- its place. `event_ids`, an std::unordered_set, is a list with each number once.
pub mod Punctual
pub mod Stopped
mod Tests
use otg_premium_version.Common.{
  ℕ, zero, suc, ◌+◌, ◌%◌, ◌^◌, Bool, true, false, ◌&&◌, ◌||◌, not, Option, none, some, List, [],
  ◌∷◌, ◌==◌, if◌then◌else◌, leb,
}

pub record SchedulerTask : Type 0 where
  pub event_id : ℕ
  pub cycle : ℕ
  pub func : ℕ

-- `taken` is the event that the thread took off the queue and has not yet handed over, with the time
-- at which it did so: it gives the lock back in between. `dispatched` is what the dispatcher was given,
-- the last first, with the time.
pub record Scheduler : Type 0 where
  pub running : Bool
  pub last_event_id : ℕ
  pub event_list : List SchedulerTask
  pub event_ids : List ℕ
  pub waiting : Option ℕ
  pub taken : Option (ℕ × SchedulerTask)
  pub dispatched : List (ℕ × SchedulerTask)

pub member : ℕ → List ℕ → Bool
member id [] = false
member id (i ∷ is) = i == id || member id is

-- `eventIds.insert`
pub insert : ℕ → List ℕ → List ℕ
unfolding member
insert id ids = if member id ids then ids else id ∷ ids

-- `eventIds.erase(it)`
pub erase : ℕ → List ℕ → List ℕ
erase id [] = []
erase id (i ∷ is) = if i == id then erase id is else i ∷ erase id is

-- `if (++lastEventId == 0) { lastEventId = 1; }`
pub next_id : ℕ → ℕ
next_id last = let next = (last + 1) % 2 ^ 32 in if next == 0 then 1 else next

-- The number returned is 0 where the scheduler does not run.
pub add_event : SchedulerTask → Scheduler → Scheduler × ℕ
unfolding insert next_id
add_event task s =
    if not s.running
    then (s, 0)
    else let last = if task.event_id == 0 then next_id s.last_event_id else s.last_event_id in
      let id = if task.event_id == 0 then last else task.event_id in
      (
        record s {
          last_event_id = last;
          event_ids = insert id s.event_ids;
          event_list = record task { event_id = id } ∷ s.event_list;
        },
        id,
      )

pub stop_event : ℕ → Scheduler → Scheduler × Bool
unfolding member erase
stop_event id s =
    if id == 0
    then (s, false)
    else if not (member id s.event_ids)
    then (s, false)
    else (record s { event_ids = erase id s.event_ids }, true)

pub shutdown : Scheduler → Scheduler
shutdown s = record s { running = false; event_list = []; event_ids = [] }

pub get : ℕ → List SchedulerTask → Option SchedulerTask
get i [] = none
get zero (t ∷ ts) = some t
get (suc i) (t ∷ ts) = get i ts

pub remove_at : ℕ → List SchedulerTask → List SchedulerTask
remove_at i [] = []
remove_at zero (t ∷ ts) = ts
remove_at (suc i) (t ∷ ts) = t ∷ remove_at i ts

-- Whether no event of the queue is before a time, as TaskComparator orders them.
pub none_before : ℕ → List SchedulerTask → Bool
none_before time [] = true
none_before time (t ∷ ts) = leb time t.cycle && none_before time ts

-- The event at a place, if it may be on top of the queue.
pub top : ℕ → List SchedulerTask → Option SchedulerTask
unfolding get none_before
top i ts = elim (get i ts) [
  | none ↦ none
  | some t ↦ if none_before t.cycle ts then some t else none
]

-- The thread, which has nothing in hand, finds the queue filled and waits until the time of the top.
pub wait : ℕ → Scheduler → Scheduler
unfolding top
wait i s = elim s.taken [
  | some e ↦ s
  | none ↦ elim (top i s.event_list) [ none ↦ s | some t ↦ record s { waiting = some t.cycle } ]
]

-- After the time-out the top is taken off, and kept in hand unless it was stopped.
pub take_top : ℕ → ℕ → SchedulerTask → Scheduler → Scheduler
unfolding remove_at member erase
take_top now i t s =
    let popped = record s { event_list = remove_at i s.event_list; waiting = none } in
    if member t.event_id s.event_ids
    then record popped { event_ids = erase t.event_id s.event_ids; taken = some (now, t) }
    else popped

-- `g_dispatcher.addTask`, without the lock, some time after.
pub hand_over : ℕ → Scheduler → Scheduler
hand_over delay s = elim s.taken [
  | none ↦ s
  | some (now, t) ↦ record s { taken = none; dispatched = (now + delay, t) ∷ s.dispatched }
]

-- The thread wakes at `now`: by time-out where the time it waited for has come.
pub wake : ℕ → ℕ → Scheduler → Scheduler
unfolding take_top top
wake now i s = elim s.waiting [
  | none ↦ s
  | some until ↦
      if leb until now
      then elim (top i s.event_list) [ none ↦ s | some t ↦ take_top now i t s ]
      else s
]

pub data Event : Type 0 where
  adds : SchedulerTask → Event
  stops : ℕ → Event
  shuts : Event
  waits : (place : ℕ) → Event
  notified : Event
  wakes : (now place : ℕ) → Event
  hands : (delay : ℕ) → Event

pub step : Event → Scheduler → Scheduler
unfolding add_event stop_event shutdown wait wake hand_over
step (adds task) s = (add_event task s).0
step (stops id) s = (stop_event id s).0
step shuts s = shutdown s
step (waits i) s = wait i s
step notified s = record s { waiting = none }
step (wakes now i) s = wake now i s
step (hands delay) s = hand_over delay s

pub run : List Event → Scheduler → Scheduler
unfolding step
run [] s = s
run (e ∷ es) s = run es (step e s)

abbrev pub start : Scheduler
start = record {
  running = true;
  last_event_id = 0;
  event_list = [];
  event_ids = [];
  waiting = none;
  taken = none;
  dispatched = [];
}
