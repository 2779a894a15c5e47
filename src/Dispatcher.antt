-- ===== src/Dispatcher.antt =====
-- source/src/tasks.cpp and tasks.h: the list of tasks, and the thread that carries them out.
-- Each step is what happens under the lock at once, with what the thread then does with the task it
-- took. A task's function is a number; the one that `shutdown` adds ends the thread.
pub mod Order
mod Tests
use otg_premium_version.Common.{
  ℕ, zero, suc, ◌+◌, ◌%◌, ◌^◌, Bool, true, false, ◌&&◌, not, List, [], ◌∷◌, ◌++◌, ◌==◌,
  if◌then◌else◌, ltb,
}

-- ThreadState of source/src/enums.h.
pub data ThreadState : Type 0 where
  state_running : ThreadState
  state_closing : ThreadState
  state_terminated : ThreadState

abbrev pub is_running : ThreadState → Bool
is_running state_running = true
is_running _ = false

abbrev pub is_terminated : ThreadState → Bool
is_terminated state_terminated = true
is_terminated _ = false

pub data Func : Type 0 where
  work : ℕ → Func
  terminate : Func

-- `expiration` is 0 for SYSTEM_TIME_ZERO.
pub record Task : Type 0 where
  pub expiration : ℕ
  pub func : Func

-- `taken` is what the thread took, with the time, and `executed` what it carried out, the first
-- first.
pub record Dispatcher : Type 0 where
  pub state : ThreadState
  pub task_list : List Task
  pub dispatcher_cycle : ℕ
  pub taken : List (ℕ × Task)
  pub executed : List Task

pub has_expired : ℕ → Task → Bool
has_expired now t = if t.expiration == 0 then false else ltb t.expiration now

pub add_task : Task → Bool → Dispatcher → Dispatcher
add_task t push_front d =
    if is_running d.state
    then record d { task_list = if push_front then t ∷ d.task_list else d.task_list ++ t ∷ [] }
    else d

abbrev pub shutdown_task : Task
shutdown_task = record { expiration = 0; func = terminate }

pub shutdown : Dispatcher → Dispatcher
shutdown d = record d { task_list = d.task_list ++ shutdown_task ∷ [] }

-- ThreadHolder::stop
pub stop : Dispatcher → Dispatcher
stop d = record d { state = state_closing }

-- `(*task)()`
pub execute : Task → Dispatcher → Dispatcher
execute t d = record d {
  state = elim (t.func) [ work n ↦ d.state | terminate ↦ state_terminated ];
  dispatcher_cycle = (d.dispatcher_cycle + 1) % 2 ^ 64;
  executed = d.executed ++ t ∷ [];
}

-- A task that was taken at `now`.
pub handle : ℕ → Task → Dispatcher → Dispatcher
unfolding has_expired execute
handle now t d =
    let d' = record d { taken = d.taken ++ (now, t) ∷ [] } in
    if not (has_expired now t) then execute t d' else d'

-- A turn of the thread's loop at `now`.
pub turn : ℕ → Dispatcher → Dispatcher
unfolding handle
turn now d =
    if is_terminated d.state
    then d
    else elim (d.task_list) [ [] ↦ d | t ∷ ts ↦ handle now t (record d { task_list = ts }) ]

pub data Action : Type 0 where
  adds : Task → (push_front : Bool) → Action
  shuts : Action
  stops : Action
  turns : (now : ℕ) → Action

pub step : Action → Dispatcher → Dispatcher
unfolding add_task shutdown stop turn
step (adds t push_front) d = add_task t push_front d
step shuts d = shutdown d
step stops d = stop d
step (turns now) d = turn now d

pub run : List Action → Dispatcher → Dispatcher
unfolding step
run [] d = d
run (a ∷ as_after) d = run as_after (step a d)

abbrev pub start : Dispatcher
start = record {
  state = state_running;
  task_list = [];
  dispatcher_cycle = 0;
  taken = [];
  executed = [];
}
