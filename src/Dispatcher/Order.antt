-- ===== src/Dispatcher/Order.antt =====
-- In what order source/src/tasks.cpp carries tasks out, and which.
use mathlib.Core.List.{append_assoc, append-nil}
use otg_premium_version.Common.{
  ℕ, Bool, true, false, ◌&&◌, not, List, [], ◌∷◌, ◌++◌, if◌then◌else◌, ◌≡◌, refl, arith, ◌∙◌, ap,
  sym, Bool-cases, inl, inr, ◌⊎◌, ap₂,
}
use otg_premium_version.Dispatcher.{
  is_running, is_terminated, Task, Dispatcher, has_expired, add_task, shutdown, shutdown_task, stop,
  execute, handle, turn, Action, adds, shuts, stops, turns, step, run, start,
}

-- The tasks of what was taken that had not expired when they were taken.
unfoldable pub unexpired : List (ℕ × Task) → List Task
unexpired [] = []
unexpired ((now, t) ∷ ts) = if has_expired now t then unexpired ts else t ∷ unexpired ts

unfoldable pub tasks : List (ℕ × Task) → List Task
tasks [] = []
tasks ((now, t) ∷ ts) = t ∷ tasks ts

-- The tasks that steps add, in their order.
unfoldable pub accepted : List Action → Dispatcher → List Task
unfolding step
accepted [] d = []
accepted (adds t push_front ∷ es) d =
    if is_running d.state
    then t ∷ accepted es (add_task t push_front d)
    else accepted es (add_task t push_front d)
accepted (shuts ∷ es) d = shutdown_task ∷ accepted es (shutdown d)
accepted (e ∷ es) d = accepted es (step e d)

-- Whether no task is put to the front.
unfoldable pub only_back : List Action → Bool
only_back [] = true
only_back (adds t push_front ∷ es) = not push_front && only_back es
only_back (e ∷ es) = only_back es

unexpired_append :
    (ts : List (ℕ × Task)) (now : ℕ) (t : Task)
    → unexpired (ts ++ (now, t) ∷ []) ≡ unexpired ts ++ (if has_expired now t then [] else t ∷ [])
unfolding unexpired
unexpired_append [] now t = ground arith
unexpired_append ((n, u) ∷ ts) now t = ground (arith, unexpired_append ts now t)

tasks_append :
    (ts : List (ℕ × Task)) (now : ℕ) (t : Task) → tasks (ts ++ (now, t) ∷ []) ≡ tasks ts ++ t ∷ []
unfolding tasks
tasks_append [] now t = refl
tasks_append ((n, u) ∷ ts) now t = ap (λ xs. u ∷ xs) (tasks_append ts now t)

List-cases {ℓ} : {A : Type ℓ} (xs : List A) → (xs ≡ []) ⊎ ((x : A) × (ys : List A) × (xs ≡ x ∷ ys))
List-cases [] = inl refl
List-cases (x ∷ xs) = inr (x, xs, refl)

turn_idle : (now : ℕ) (d : Dispatcher) → is_terminated d.state ≡ true → turn now d ≡ d
unfolding turn
turn_idle now d e = rw (e, turn) refl

turn_empty : (now : ℕ) (d : Dispatcher) → d.task_list ≡ [] → turn now d ≡ d
unfolding turn
turn_empty now d e = elim (Bool-cases (is_terminated d.state)) [
  | inl b ↦ rw (b, turn) refl
  | inr b ↦ ground arith
]

turn_first :
    (now : ℕ) (d : Dispatcher) (t : Task) (ts : List Task)
    → is_terminated d.state ≡ false
    → d.task_list ≡ t ∷ ts
    → turn now d ≡ handle now t (record d { task_list = ts })
unfolding turn
turn_first now d t ts b e = rw (b, turn, e) refl

handle-executed :
    (now : ℕ) (t : Task) (d : Dispatcher)
    → d.executed ≡ unexpired d.taken
    → (handle now t d).executed ≡ unexpired (handle now t d).taken
unfolding handle execute
handle-executed now t d h =
    ground (arith, unexpired_append d.taken now t, append-nil (unexpired d.taken))

handle-tasks :
    (now : ℕ) (t : Task) (d : Dispatcher)
    → ((handle now t d).task_list ≡ d.task_list)
      × (tasks (handle now t d).taken ≡ tasks d.taken ++ t ∷ [])
unfolding handle execute
handle-tasks now t d = (ground arith, ground (arith, tasks_append d.taken now t))

turn-executed :
    (now : ℕ) (d : Dispatcher)
    → d.executed ≡ unexpired d.taken
    → (turn now d).executed ≡ unexpired (turn now d).taken
turn-executed now d h = elim (Bool-cases (is_terminated d.state)) [
  | inl b ↦ rw (turn_idle now d b) h
  | inr b ↦ elim (List-cases d.task_list) [
    | inl e ↦ rw (turn_empty now d e) h
    | inr (t, ts, e) ↦
        rw (turn_first now d t ts b e) (handle-executed now t (record d { task_list = ts }) h)
  ]
]

step-executed :
    (e : Action) (d : Dispatcher)
    → d.executed ≡ unexpired d.taken
    → (step e d).executed ≡ unexpired (step e d).taken
unfolding step add_task shutdown stop
step-executed (adds t push_front) d h = ground arith
step-executed shuts d h = h
step-executed stops d h = h
step-executed (turns now) d h = turn-executed now d h

run-executed :
    (es : List Action) (d : Dispatcher)
    → d.executed ≡ unexpired d.taken
    → (run es d).executed ≡ unexpired (run es d).taken
unfolding run
run-executed [] d h = h
run-executed (e ∷ es) d h = run-executed es (step e d) (step-executed e d h)

-- Taken and waiting tasks together, in their order.
line : Dispatcher → List Task
unfolding tasks
line d = tasks d.taken ++ d.task_list

turn-line : (now : ℕ) (d : Dispatcher) → line (turn now d) ≡ line d
unfolding line
turn-line now d = elim (Bool-cases (is_terminated d.state)) [
  | inl b ↦ ap line (turn_idle now d b)
  | inr b ↦ elim (List-cases d.task_list) [
    | inl e ↦ ap line (turn_empty now d e)
    | inr (t, ts, e) ↦
        let d' = record d { task_list = ts } in
        ap line (turn_first now d t ts b e)
        ∙ ap₂ ◌++◌ (handle-tasks now t d').1 (handle-tasks now t d').0
        ∙ append_assoc (tasks d.taken) (t ∷ []) ts
        ∙ ap (λ xs. tasks d.taken ++ xs) (sym e)
  ]
]

add_task-line :
    (t : Task) (d : Dispatcher)
    → line (add_task t false d) ≡ line d ++ (if is_running d.state then t ∷ [] else [])
unfolding line add_task
add_task-line t d = ground (
  arith,
  append_assoc (tasks d.taken) d.task_list (t ∷ []),
  append-nil (tasks d.taken ++ d.task_list),
)

run-line :
    (es : List Action) (d : Dispatcher)
    → only_back es ≡ true
    → line (run es d) ≡ line d ++ accepted es d
unfolding run step accepted only_back shutdown stop line
run-line [] d h = sym (append-nil (line d))
run-line (adds t true ∷ es) d h = absurd (ground arith)
run-line (adds t false ∷ es) d h =
    run-line es (add_task t false d) h
    ∙ ap (λ xs. xs ++ accepted es (add_task t false d)) (add_task-line t d)
    ∙ append_assoc (line d) (if is_running d.state then t ∷ [] else [])
        (accepted es (add_task t false d))
    ∙ ground arith
run-line (shuts ∷ es) d h =
    run-line es (shutdown d) h
    ∙ ap (λ xs. xs ++ accepted es (shutdown d))
        (sym (append_assoc (tasks d.taken) d.task_list (shutdown_task ∷ [])))
    ∙ append_assoc (line d) (shutdown_task ∷ []) (accepted es (shutdown d))
run-line (stops ∷ es) d h = run-line es (stop d) h
run-line (turns now ∷ es) d h =
    run-line es (turn now d) h ∙ ap (λ xs. xs ++ accepted es (turn now d)) (turn-line now d)

-- Whatever threads do in whatever order from the start, the dispatcher carries out, in the order in
-- which it took them, exactly the tasks that had not expired when it took them.
pub run-executes : (es : List Action) → (run es start).executed ≡ unexpired (run es start).taken
unfolding unexpired
run-executes es = run-executed es start refl

-- Where no task is put to the front, the tasks that were taken and those that wait are together
-- exactly the accepted tasks, in the order in which they were added.
pub run-in_order :
    (es : List Action)
    → only_back es ≡ true
    → tasks (run es start).taken ++ (run es start).task_list ≡ accepted es start
unfolding line tasks
run-in_order es h = run-line es start h
