-- ===== src/Scheduler/Starve.antt =====
-- What `yield` does to the turns: it leaves the current index at the process that yielded.
use radish_os.Prelude.{
  ℕ, zero, suc, ◌+◌, ◌<◌, ◌≡◌, ◌≢◌, refl, ◌∙◌, inl, inr, true, false, Option, none, some, arith,
  ◌==◌, ltb, length, Bool-cases,
}
use radish_os.Outcome.{Outcome, ok, ◌>>=◌}
use radish_os.Prelude.Words.{u64_mod}
use radish_os.Vector.Remove.{get_elem?}
use radish_os.Scheduler.{
  SchedulerContext, is_dead, tick, turn, next_turn, set_time, time_per_process, eligible, find_loop,
  find_next_runnable_process, yield, yield_from, yield_to,
}
use radish_os.Scheduler.Search.{behind, find_step}
use radish_os.Scheduler.Turn.{IsRunning, tick-within, tick-over, same_status}

pub tick_times : ℕ → SchedulerContext → Outcome SchedulerContext
tick_times zero ctx = ok ctx
tick_times (suc n) ctx = do ctx' ← tick ctx; tick_times n ctx'

-- The running process is the one behind the current index.
record Stuck (ctx : SchedulerContext) (q : ℕ) : Type 0 where
  running : IsRunning ctx q
  next : get_elem? ctx.processes (behind ctx 0) ≡ some q
  alive : is_dead (ctx.table q) ≡ false
  early : (ctx.table q).time < time_per_process

-- the search looks at the process behind the current index first
find_next-first :
    (ctx : SchedulerContext) (old_proc : Option ℕ) (q : ℕ)
    → ctx.current_process_index + 1 + length ctx.processes < u64_mod
    → 0 < length ctx.processes
    → get_elem? ctx.processes (behind ctx 0) ≡ some q
    → eligible ctx old_proc q ≡ true
    → find_next_runnable_process ctx old_proc ≡ ok (some (q, behind ctx 0))
unfolding find_next_runnable_process
find_next-first ctx old_proc q small pos at can = from (length ctx.processes) pos
  where
    from : (k : ℕ) → 0 < k → find_loop k 0 ctx old_proc ≡ ok (some (q, behind ctx 0))
    from zero h = absurd (omega arith)
    from (suc k) h = find_step ctx old_proc small k 0 q pos at ∙ rw can refl

turn-same :
    (ctx : SchedulerContext) (q : ℕ)
    → ctx.current_process_index + 1 + length ctx.processes < u64_mod
    → 0 < length ctx.processes
    → get_elem? ctx.processes (behind ctx 0) ≡ some q
    → is_dead (ctx.table q) ≡ false
    → turn ctx q ≡ ok ctx
unfolding turn next_turn
turn-same ctx q small pos at alive =
    let can : eligible ctx none q ≡ true = ground (arith, alive) in
    let itself : (q == q) ≡ true = ground arith in
    simp (find_next-first ctx none q small pos at can, itself) refl

time_set : (ctx : SchedulerContext) (q t : ℕ) → ((set_time ctx q t).table q).time ≡ t
time_set ctx q t = let itself : (q == q) ≡ true = ground arith in simp (itself) refl

Stuck-set_time :
    (ctx : SchedulerContext) (q t : ℕ)
    → Stuck ctx q
    → t < time_per_process
    → Stuck (set_time ctx q t) q
Stuck-set_time ctx q t s h = record {
  running = record {
    active = s.running.active;
    some_process = s.running.some_process;
    current = s.running.current;
    small = s.running.small;
  };
  next = s.next;
  alive = same_status ctx q t q ∙ s.alive;
  early = rw (time_set ctx q t) h;
}

tick-Stuck :
    (ctx : SchedulerContext) (q : ℕ)
    → Stuck ctx q
    → (ctx' : SchedulerContext) × (tick ctx ≡ ok ctx') × Stuck ctx' q
tick-Stuck ctx q s = elim (Bool-cases (ltb ((ctx.table q).time + 1) time_per_process)) [
  | inl early ↦ (
    set_time ctx q ((ctx.table q).time + 1),
    tick-within ctx q s.running s.alive (ground arith),
    Stuck-set_time ctx q _ s (ground arith),
  )
  | inr late ↦
      let s' : Stuck (set_time ctx q 0) q = Stuck-set_time ctx q 0 s (omega arith) in
      (
        set_time ctx q 0,
        tick-over ctx q s.running s.alive (ground arith) (omega (arith, s.early))
            ∙ turn-same (set_time ctx q 0) q s.running.small s.running.some_process s.next s'.alive,
        s',
      )
]

tick_times-Stuck :
    (n : ℕ) (ctx : SchedulerContext) (q : ℕ)
    → Stuck ctx q
    → (ctx' : SchedulerContext) × (tick_times n ctx ≡ ok ctx') × Stuck ctx' q
unfolding tick_times
tick_times-Stuck zero ctx q s = (ctx, refl, s)
tick_times-Stuck (suc n) ctx q s =
    let (c, e, t) = tick-Stuck ctx q s in let (d, f, u) = tick_times-Stuck n c q t in (d, rw e f, u)

-- While the scheduler is unlocked, a process p yields to the next one in the list, q, which is not
-- dead and has not used up its time. As the current index stays at p, however many ticks follow, q
-- keeps the processor.
pub yield-starves :
    (ctx : SchedulerContext) (p q n : ℕ)
    → IsRunning ctx p
    → get_elem? ctx.processes (behind ctx 0) ≡ some q
    → q ≢ p
    → is_dead (ctx.table q) ≡ false
    → (ctx.table q).time < time_per_process
    → (c c' : SchedulerContext) × (yield ctx ≡ ok c)
      × (tick_times n c ≡ ok c')
      × (c.current_process ≡ some q)
      × (c'.current_process ≡ some q)
unfolding yield yield_from yield_to
yield-starves ctx p q n r at ne alive early =
    let can : eligible ctx (some p) q ≡ true = ground (arith, alive, ne) in
    let found = find_next-first ctx (some p) q r.small r.some_process at can in
    let c : SchedulerContext = yield_to ctx p (some (q, behind ctx 0)) in
    let s : Stuck c q = record {
      running = record {
        active = r.active;
        some_process = r.some_process;
        current = refl;
        small = r.small;
      };
      next = at;
      alive = alive;
      early = early;
    } in
    let (d, e, t) = tick_times-Stuck n c q s in
    (c, d, simp (r.current, found) refl, e, refl, t.running.current)
