-- ===== src/Scheduler.antt =====
-- kernel/proc/scheduler.cpp, with what it reads and writes of a process (kernel/proc/process.cpp)
-- and kernel/proc/kill.cpp. A process pointer is an address into `table`, and `nullptr` is `none`.
-- The vector of processes is the list of its objects. What goes to the processor, the files and
-- the frame allocator is a list of events, the last first. A call of `tick` or `yield` is modelled
-- up to the switch; `reap_pending_zombie` is what `tick` does when it is switched back to.
pub mod Search
pub mod Turn
pub mod RoundRobin
pub mod Starve
mod Tests
use radish_os.Prelude.{
  ℕ, zero, suc, ◌+◌, ◌%◌, Bool, true, false, not, ◌&&◌, ◌||◌, Option, none, some, List, [], ◌∷◌,
  ◌++◌, ltb, ◌==◌, if◌then◌else◌, length,
}
use radish_os.Outcome.{Outcome, ok, panic, index_out_of_range, null_pointer, ◌>>=◌}
use radish_os.Prelude.Words.{add64}
use radish_os.Vector.Remove.{get_elem?}

pub data ProcessStatus : Type 0 where
  alive dead : ProcessStatus

-- the fields of a process that the scheduler uses
pub record Process : Type 0 where
  pub id : ℕ
  pub time : ℕ
  pub status : ProcessStatus
  pub kernel_frame : ℕ
  pub file_descriptors : List (Option ℕ)

pub data Status : Type 0 where
  locked unlocked : Status

pub data Event : Type 0 where
  load_pml4t use_kernel_stack delete free_frame : ℕ → Event
  close_file : Option ℕ → Event
  switch : ℕ → ℕ → Event

pub record SchedulerContext : Type 0 where
  pub status : Status
  pub processes : List ℕ
  pub current_process : Option ℕ
  pub current_process_index : ℕ
  pub pending_zombie : Option ℕ
  pub table : ℕ → Process
  pub events : List Event

pub init : SchedulerContext → SchedulerContext
init ctx = record ctx { current_process = none; status = unlocked }

-- in ms
abbrev pub time_per_process : ℕ
time_per_process = 35

abbrev pub is_dead : Process → Bool
is_dead p = elim (p.status) [ alive ↦ false | dead ↦ true ]

abbrev pub is_locked : SchedulerContext → Bool
is_locked ctx = elim (ctx.status) [ locked ↦ true | unlocked ↦ false ]

abbrev pub is_active : SchedulerContext → Bool
is_active ctx = not (is_locked ctx)

-- `p == q` for a pointer that may be null
abbrev pub same? : ℕ → Option ℕ → Bool
same? p none = false
same? p (some q) = p == q

abbrev pub emit : SchedulerContext → Event → SchedulerContext
emit ctx e = record ctx { events = e ∷ ctx.events }

abbrev pub index : List ℕ → ℕ → Outcome ℕ
index ps i = elim (get_elem? ps i) [ none ↦ panic index_out_of_range | some p ↦ ok p ]

-- the test of `findNextRunnableProcess`
abbrev pub eligible : SchedulerContext → Option ℕ → ℕ → Bool
eligible ctx old_proc p = not (is_dead (ctx.table p)) && not (same? p old_proc)

-- its loop: the rounds that are left, and `i`
pub find_loop : ℕ → ℕ → SchedulerContext → Option ℕ → Outcome (Option (ℕ × ℕ))
find_loop zero i ctx old_proc = ok none
find_loop (suc k) i ctx old_proc = do
  let idx = add64 (add64 ctx.current_process_index 1) i % length ctx.processes
  p ← index ctx.processes idx
  let later = find_loop k (i + 1) ctx old_proc
  if eligible ctx old_proc p then ok (some (p, idx)) else later

-- the process, and its index
pub find_next_runnable_process : SchedulerContext → Option ℕ → Outcome (Option (ℕ × ℕ))
find_next_runnable_process ctx old_proc = find_loop (length ctx.processes) 0 ctx old_proc

pub add_process : SchedulerContext → ℕ → SchedulerContext
add_process ctx p = record ctx {
  processes = ctx.processes ++ p ∷ [];
  current_process = elim (ctx.current_process) [ none ↦ some p | some q ↦ some q ];
}

remove : ℕ → List ℕ → List ℕ
remove p [] = []
remove p (q ∷ qs) = if q == p then qs else q ∷ remove p qs

pub remove_process : SchedulerContext → ℕ → SchedulerContext
remove_process ctx p = record ctx { processes = remove p ctx.processes }

close_files : List (Option ℕ) → SchedulerContext → SchedulerContext
close_files [] ctx = ctx
close_files (fd ∷ fds) ctx = close_files fds (emit ctx (close_file fd))

-- `undertaker` of a process, and the same lines of `reapPendingZombie`
pub undertaker : SchedulerContext → ℕ → SchedulerContext
undertaker ctx p =
    let closed = close_files (ctx.table p).file_descriptors ctx in
    let freed = emit closed (free_frame (ctx.table p).kernel_frame) in
    emit (remove_process freed p) (delete p)

pub reap_pending_zombie : SchedulerContext → SchedulerContext
reap_pending_zombie ctx = elim (ctx.pending_zombie) [
  | none ↦ ctx
  | some zombie ↦ undertaker (record ctx { pending_zombie = none }) zombie
]

abbrev pub set_time : SchedulerContext → ℕ → ℕ → SchedulerContext
set_time ctx p t = record ctx {
  table = λ q. if q == p then record (ctx.table p) { time = t } else ctx.table q;
}

-- the end of `tick`, from the switch to another process on
pub switch_to : SchedulerContext → ℕ → ℕ → ℕ → SchedulerContext
switch_to ctx old_proc new_proc idx =
    let ctx' = record ctx { current_process = some new_proc; current_process_index = idx } in
    let loaded = emit (emit ctx' (load_pml4t new_proc)) (use_kernel_stack new_proc) in
    let buried =
      if is_dead (ctx.table old_proc)
      then record loaded { pending_zombie = some old_proc }
      else loaded in
    emit buried (switch old_proc new_proc)

-- `tick` once the time of the current process is over, or it is dead
pub next_turn : SchedulerContext → ℕ → Option (ℕ × ℕ) → SchedulerContext
next_turn ctx old_proc none =
    let idle = record ctx { current_process = none } in
    if is_dead (ctx.table old_proc) then undertaker idle old_proc else idle
next_turn ctx old_proc (some (new_proc, idx)) =
    if new_proc == old_proc then ctx else switch_to ctx old_proc new_proc idx

-- `findNextRunnableProcess(nullptr, ...)`, and the turn
pub turn : SchedulerContext → ℕ → Outcome SchedulerContext
turn ctx old_proc = do
  found ← find_next_runnable_process ctx none
  ok (next_turn ctx old_proc found)

-- `tick` with a current process, when the scheduler runs
pub tick_process : SchedulerContext → ℕ → Outcome SchedulerContext
tick_process ctx p =
    let used = add64 (ctx.table p).time 1 in
    if is_dead (ctx.table p)
    then turn ctx p
    else if ltb used time_per_process
    then ok (set_time ctx p used)
    else turn (set_time ctx p 0) p

pub tick_current : SchedulerContext → Option ℕ → Outcome SchedulerContext
tick_current ctx none = ok ctx
tick_current ctx (some p) = tick_process ctx p

pub tick : SchedulerContext → Outcome SchedulerContext
tick ctx =
    if is_locked ctx || (length ctx.processes == 0)
    then ok ctx
    else tick_current ctx ctx.current_process

-- `yield` leaves `current_process_index` as it is
pub yield_to : SchedulerContext → ℕ → Option (ℕ × ℕ) → SchedulerContext
yield_to ctx old_proc none = ctx
yield_to ctx old_proc (some (new_proc, idx)) =
    let loaded = emit (emit ctx (load_pml4t new_proc)) (use_kernel_stack new_proc) in
    emit (record loaded { current_process = some new_proc }) (switch old_proc new_proc)

pub yield_from : SchedulerContext → Option ℕ → Outcome SchedulerContext
yield_from ctx none = ok ctx
yield_from ctx (some old_proc) = do
  found ← find_next_runnable_process ctx (some old_proc)
  ok (yield_to ctx old_proc found)

pub yield : SchedulerContext → Outcome SchedulerContext
yield ctx = yield_from ctx ctx.current_process

pub set_current_process : SchedulerContext → Option ℕ → SchedulerContext
set_current_process ctx p = record ctx { current_process = p }

pub lock : SchedulerContext → SchedulerContext
lock ctx = record ctx { status = locked }

pub unlock : SchedulerContext → SchedulerContext
unlock ctx = record ctx { status = unlocked }

find_id : ℕ → SchedulerContext → List ℕ → Option ℕ
find_id pid ctx [] = none
find_id pid ctx (p ∷ ps) = if (ctx.table p).id == pid then some p else find_id pid ctx ps

pub get_process_by_id : SchedulerContext → ℕ → Option ℕ
get_process_by_id ctx pid = find_id pid ctx ctx.processes

-- kernel/proc/kill.cpp: the results 0, -1 and -2
pub data KillResult : Type 0 where
  killed no_such_process uses_cpu : KillResult

pub kill : SchedulerContext → ℕ → Outcome (KillResult × SchedulerContext)
kill ctx pid = elim (get_process_by_id ctx pid) [
  | none ↦ ok (no_such_process, ctx)
  | some p ↦ elim (ctx.current_process) [
    | none ↦ panic null_pointer
    | some q ↦
        if (ctx.table p).id == (ctx.table q).id
        then ok (uses_cpu, ctx)
        else ok (killed, undertaker ctx p)
  ]
]
