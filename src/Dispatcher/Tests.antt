-- ===== src/Dispatcher/Tests.antt =====
-- Runs of the dispatcher of source/src/tasks.cpp.
use otg_premium_version.Common.{false, List, [], ◌∷◌, ◌++◌, ◌≡◌, refl}
use otg_premium_version.Dispatcher.{
  Task, work, Action, adds, shuts, turns, step, run, start, add_task, shutdown, turn, handle,
  execute, has_expired, shutdown_task,
}
use otg_premium_version.Dispatcher.Order.{
  run-executes, run-in_order, unexpired, tasks, accepted, only_back,
}

abbrev first : Task
first = record { expiration = 0; func = work 1 }

abbrev brief : Task
brief = record { expiration = 20; func = work 2 }

-- The second task expires while it waits; nothing is carried out behind the end.
abbrev history : List Action
history =
    adds first false
    ∷ adds brief false
    ∷ shuts
    ∷ adds first false
    ∷ turns 10
    ∷ turns 30
    ∷ turns 31
    ∷ adds brief false
    ∷ turns 32
    ∷ []

history_executed : (run history start).executed ≡ first ∷ shutdown_task ∷ []
unfolding run step add_task shutdown turn handle execute has_expired
history_executed = refl

run-executes_example : (run history start).executed ≡ unexpired (run history start).taken
run-executes_example = run-executes history

run-in_order_example :
    tasks (run history start).taken ++ (run history start).task_list ≡ accepted history start
unfolding only_back
run-in_order_example = run-in_order history refl
