-- ===== src/Listener/Commands/Timers.antt =====
-- When the tasks of `handle_timer_task` run.
use p2p_demo.Prelude.{
  ℕ, ◌+◌, ◌≤◌, ◌≡◌, refl, List, [], ◌∷◌, All, false, inl, inr, ltb, arith, Bool-cases,
}
use p2p_demo.Listener.State.{World, Net, TimerTask}
use p2p_demo.Listener.Commands.{run_task, run_tasks, handle_timer_task}

-- The task is not due at that time.
abbrev IsIdle : ℕ → TimerTask → Type 0
IsIdle now task = now ≤ task.last_exec + task.interval

module _ (net : Net) where
  run_tasks-IsIdle :
      (now : ℕ) (ts : List TimerTask) (w : World) → All (IsIdle now) (run_tasks net now ts w).1
  unfolding run_tasks
  run_tasks-IsIdle now [] w = tt
  run_tasks-IsIdle now (task ∷ ts) w =
      elim (Bool-cases (ltb (task.last_exec + task.interval) now)) [
        | inl due ↦ rw due (omega arith, run_tasks-IsIdle now ts (run_task net task.name w))
        | inr idle ↦ rw idle (ground (arith, idle), run_tasks-IsIdle now ts w)
      ]

  run_tasks_idle :
      (now : ℕ) (ts : List TimerTask) (w : World)
      → All (IsIdle now) ts
      → run_tasks net now ts w ≡ (w, ts)
  unfolding run_tasks
  run_tasks_idle now [] w h = refl
  run_tasks_idle now (task ∷ ts) w (h, hs) =
      let idle : ltb (task.last_exec + task.interval) now ≡ false = ground (arith, h) in
      rw (run_tasks, idle, run_tasks_idle now ts w hs)

  earlier :
      (now then_ : ℕ) (ts : List TimerTask)
      → then_ ≤ now
      → All (IsIdle now) ts
      → All (IsIdle then_) ts
  earlier now then_ [] h v = tt
  earlier now then_ (task ∷ ts) h (v, vs) = (omega (arith, h, v), earlier now then_ ts h vs)

  -- A second `handle_timer_task` at the same time, or at an earlier one, changes nothing and sends
  -- nothing.
  handle_timer_task_twice :
      (w : World)
      → net.now (handle_timer_task net w).trace ≤ net.now w.trace
      → handle_timer_task net (handle_timer_task net w) ≡ handle_timer_task net w
  unfolding handle_timer_task
  handle_timer_task_twice w h =
      let r : World × List TimerTask = run_tasks net (net.now w.trace) w.time_task_queue w in
      rw (
        run_tasks_idle (net.now r.0.trace) r.1 (handle_timer_task net w) (
          earlier (net.now w.trace) (net.now r.0.trace) r.1 h
            (run_tasks-IsIdle (net.now w.trace) w.time_task_queue w)))
