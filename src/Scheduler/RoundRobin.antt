-- ===== src/Scheduler/RoundRobin.antt =====
-- `tick` at the end of a turn: the next process in the round has the processor, and nothing else
-- changes.
use radish_os.Prelude.{
  ℕ, ◌+◌, ◌≤◌, ◌<◌, ◌≡◌, refl, ap, sym, ◌∙◌, ◌⊎◌, ◌++◌, inl, inr, false, Option, none, some, List,
  [], ◌∷◌, arith, ◌==◌, if◌then◌else◌, length, Bool-cases,
}
use radish_os.Outcome.{ok}
use radish_os.Prelude.Words.{u64_mod}
use radish_os.Scheduler.{
  Event, switch, use_kernel_stack, load_pml4t, SchedulerContext, is_dead, tick, next_turn,
  switch_to, set_time, time_per_process,
}
use radish_os.Scheduler.Search.{Passed, NextRunnable}
use radish_os.Scheduler.Turn.{IsRunning, tick-over, turn_lem, same_status}

-- What `tick` leaves when the time of `p` is over: `next` has the processor, `done` is what was done
-- for it, the last first, the time of `p` is 0, and nothing else differs.
pub record Turned (ctx after : SchedulerContext) (p : ℕ) (next : Option ℕ) (idx : ℕ)
    (done : List Event) : Type 0 where
  pub current : after.current_process ≡ next
  pub index : after.current_process_index ≡ idx
  pub events : after.events ≡ done ++ ctx.events
  pub processes : after.processes ≡ ctx.processes
  pub zombie : after.pending_zombie ≡ ctx.pending_zombie
  pub status : after.status ≡ ctx.status
  pub table :
      (q : ℕ) → after.table q ≡ (if q == p then record (ctx.table p) { time = 0 } else ctx.table q)

-- the work of a switch: page tables, kernel stack, registers
abbrev pub switched : ℕ → ℕ → List Event
switched p q = switch p q ∷ use_kernel_stack q ∷ load_pml4t q ∷ []

set_time-status :
    (ctx : SchedulerContext) (p q : ℕ) → ((set_time ctx p 0).table q).status ≡ (ctx.table q).status
set_time-status ctx p q = elim (Bool-cases (q == p)) [
  | inr other ↦ simp (other) refl
  | inl here ↦
      simp (here) (ap (λ (x : ℕ). (ctx.table x).status) (let same : p ≡ q = ground arith in same))
]

Passed-before :
    (ctx : SchedulerContext) (p e : ℕ) → Passed (set_time ctx p 0) none e → Passed ctx none e
Passed-before ctx p e (q, at, inl gone) = (q, at, inl (sym (set_time-status ctx p q) ∙ gone))
Passed-before ctx p e (q, at, inr old) = (q, at, inr old)

NextRunnable-before :
    (ctx : SchedulerContext) (p q idx : ℕ)
    → NextRunnable (set_time ctx p 0) none q idx
    → NextRunnable ctx none q idx
NextRunnable-before ctx p q idx n = record {
  steps = n.steps;
  within = n.within;
  at = n.at;
  listed = n.listed;
  runnable = sym (set_time-status ctx p q) ∙ n.runnable;
  other = n.other;
  passed = λ e h. Passed-before ctx p e (n.passed e h);
}

still_alive :
    (ctx : SchedulerContext) (p : ℕ)
    → is_dead (ctx.table p) ≡ false
    → is_dead ((set_time ctx p 0).table p) ≡ false
still_alive ctx p h = same_status ctx p 0 p ∙ h

switch_to-alive :
    (ctx : SchedulerContext) (p q idx : ℕ)
    → is_dead (ctx.table p) ≡ false
    → switch_to ctx p q idx ≡ record ctx {
      current_process = some q;
      current_process_index = idx;
      events = switch p q ∷ use_kernel_stack q ∷ load_pml4t q ∷ ctx.events;
    }
unfolding switch_to
switch_to-alive ctx p q idx h = simp (h) refl

next_turn-alive :
    (ctx : SchedulerContext) (p : ℕ)
    → is_dead (ctx.table p) ≡ false
    → next_turn ctx p none ≡ record ctx { current_process = none }
unfolding next_turn
next_turn-alive ctx p h = simp (h) refl

switch_to-Turned :
    (ctx : SchedulerContext) (p q idx : ℕ)
    → is_dead (ctx.table p) ≡ false
    → Turned ctx (switch_to (set_time ctx p 0) p q idx) p (some q) idx (switched p q)
switch_to-Turned ctx p q idx h =
    rw (switch_to-alive (set_time ctx p 0) p q idx (still_alive ctx p h)) (record {
      current = refl;
      index = refl;
      events = refl;
      processes = refl;
      zombie = refl;
      status = refl;
      table = λ q. refl;
    })

rested-Turned :
    (ctx : SchedulerContext) (p : ℕ) {next : Option ℕ}
    → ctx.current_process ≡ next
    → Turned ctx (set_time ctx p 0) p next ctx.current_process_index []
rested-Turned ctx p e = record {
  current = e;
  index = refl;
  events = refl;
  processes = refl;
  zombie = refl;
  status = refl;
  table = λ q. refl;
}

idle-Turned :
    (ctx : SchedulerContext) (p : ℕ)
    → is_dead (ctx.table p) ≡ false
    → Turned ctx (next_turn (set_time ctx p 0) p none) p none ctx.current_process_index []
idle-Turned ctx p h = rw (next_turn-alive (set_time ctx p 0) p (still_alive ctx p h)) (record {
  current = refl;
  index = refl;
  events = refl;
  processes = refl;
  zombie = refl;
  status = refl;
  table = λ q. refl;
})

-- While the scheduler is unlocked, when the time of a running process that is not dead is over,
-- `tick` sets its time back and gives the processor to the first process behind the current index,
-- going round, that is not dead. Where that is another process, its page tables and its kernel stack
-- are loaded, the processor is switched to it and the current index is its index; where it is the
-- running process, that goes on. If there is none, no process has the processor. Nothing else
-- changes. The current index and the time are taken to be small enough not to wrap.
pub tick-round_robin :
    (ctx : SchedulerContext) (p : ℕ)
    → IsRunning ctx p
    → is_dead (ctx.table p) ≡ false
    → time_per_process ≤ (ctx.table p).time + 1
    → (ctx.table p).time + 1 < u64_mod
    → ((after : SchedulerContext) × (q : ℕ) × (idx : ℕ) × (tick ctx ≡ ok after)
        × NextRunnable ctx none q idx
        × Turned ctx after p
            (some q)
            (if q == p then ctx.current_process_index else idx)
            (if q == p then [] else switched p q))
      ⊎ ((after : SchedulerContext) × (tick ctx ≡ ok after)
          × ((e : ℕ) → e < length ctx.processes → Passed ctx none e)
          × Turned ctx after p none ctx.current_process_index [])
tick-round_robin ctx p r stays late fits =
    let rested : IsRunning (set_time ctx p 0) p = record {
      active = r.active;
      some_process = r.some_process;
      current = r.current;
      small = r.small;
    } in
    let over = tick-over ctx p r stays late fits in
    elim (turn_lem (set_time ctx p 0) p rested) [
      | inr (all, e) ↦ inr (
        next_turn (set_time ctx p 0) p none,
        over ∙ e,
        λ d h. Passed-before ctx p d (all d h),
        idle-Turned ctx p stays,
      )
      | inl (q, idx, n, e) ↦ elim (Bool-cases (q == p)) [
        | inl same ↦
            let at : q ≡ p = ground arith in
            inl (
              set_time ctx p 0,
              q,
              idx,
              over ∙ e ∙ rw same refl,
              NextRunnable-before ctx p q idx n,
              rw same (rested-Turned ctx p (r.current ∙ ap some (sym at))),
            )
        | inr other ↦ inl (
          switch_to (set_time ctx p 0) p q idx,
          q,
          idx,
          over ∙ e ∙ rw other refl,
          NextRunnable-before ctx p q idx n,
          rw other (switch_to-Turned ctx p q idx stays),
        )
      ]
    ]
