-- ===== src/Scheduler/Tests.antt =====
-- Three processes, of which the first runs.
use radish_os.Prelude.{ℕ, ◌<◌, ◌≡◌, refl, ◌⊎◌, none, some, [], ◌∷◌, arith, ◌==◌, if◌then◌else◌}
use radish_os.Outcome.{ok}
use radish_os.Scheduler.{
  SchedulerContext, Process, alive, unlocked, tick, yield, find_next_runnable_process,
}
use radish_os.Scheduler.Search.{Passed, NextRunnable, find_next_lem}
use radish_os.Scheduler.Turn.{IsRunning, RunsAlive, tick-RunsAlive}
use radish_os.Scheduler.RoundRobin.{Turned, switched, tick-round_robin}
use radish_os.Scheduler.Starve.{tick_times, yield-starves}

abbrev processes : ℕ → Process
processes a = record {
  id = a;
  time = if a == 100 then 34 else 0;
  status = alive;
  kernel_frame = 0;
  file_descriptors = [];
}

abbrev three : SchedulerContext
three = record {
  status = unlocked;
  processes = 100 ∷ 200 ∷ 300 ∷ [];
  current_process = some 100;
  current_process_index = 0;
  pending_zombie = none;
  table = processes;
  events = [];
}

three-IsRunning : IsRunning three 100
three-IsRunning = record {
  active = refl;
  some_process = omega arith;
  current = refl;
  small = omega arith;
}

find_next_lem_example :
    ((p : ℕ) × (idx : ℕ) × (find_next_runnable_process three none ≡ ok (some (p, idx)))
      × NextRunnable three none p idx)
    ⊎ ((find_next_runnable_process three none ≡ ok none) × ((e : ℕ) → e < 3 → Passed three none e))
find_next_lem_example = find_next_lem three none (omega arith)

tick-RunsAlive_example : (c : SchedulerContext) × (tick three ≡ ok c) × RunsAlive c
tick-RunsAlive_example = tick-RunsAlive three 100 three-IsRunning (omega arith)

tick-round_robin_example :
    ((c : SchedulerContext) × (q : ℕ) × (idx : ℕ) × (tick three ≡ ok c)
      × NextRunnable three none q idx
      × Turned three c 100
          (some q)
          (if q == 100 then 0 else idx)
          (if q == 100 then [] else switched 100 q))
    ⊎ ((c : SchedulerContext) × (tick three ≡ ok c)
        × ((e : ℕ) → e < 3 → Passed three none e)
        × Turned three c 100 none 0 [])
tick-round_robin_example =
    tick-round_robin three 100 three-IsRunning refl (omega arith) (omega arith)

yield-starves_example :
    (c c' : SchedulerContext) × (yield three ≡ ok c)
    × (tick_times 1000 c ≡ ok c')
    × (c.current_process ≡ some 200)
    × (c'.current_process ≡ some 200)
yield-starves_example =
    yield-starves three 100 200 1000 three-IsRunning refl (λ e. ground arith) refl (omega arith)
