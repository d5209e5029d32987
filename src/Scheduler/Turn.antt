-- ===== src/Scheduler/Turn.antt =====
-- `tick`: when the turn of a process ends, and that a process that runs afterwards is not dead.
use radish_os.Prelude.{
  ℕ, ◌+◌, ◌≤◌, ◌<◌, ◌≡◌, refl, ap, ◌∙◌, ◌⊎◌, Bool, inl, inr, true, false, Option, none, some, List,
  [], ◌∷◌, arith, ◌==◌, ltb, if◌then◌else◌, length, Bool-cases,
}
use radish_os.Outcome.{ok}
use radish_os.Prelude.Words.{add64, u64_mod}
use radish_os.Scheduler.{
  ProcessStatus, alive, dead, tick_current, SchedulerContext, is_dead, tick, tick_process, turn,
  next_turn, switch_to, close_files, set_time, time_per_process, undertaker, remove_process,
  is_locked,
}
use radish_os.Scheduler.Search.{Passed, NextRunnable, find_next_lem}

-- the scheduler runs `p`, and its index is small enough not to wrap
pub record IsRunning (ctx : SchedulerContext) (p : ℕ) : Type 0 where
  pub active : is_locked ctx ≡ false
  pub some_process : 0 < length ctx.processes
  pub current : ctx.current_process ≡ some p
  pub small : ctx.current_process_index + 1 + length ctx.processes < u64_mod

module _ (ctx : SchedulerContext) (p : ℕ) (r : IsRunning ctx p) where
  -- `tick` at a running process does what `tick_process` does
  tick-running : tick ctx ≡ tick_process ctx p
  unfolding tick tick_current
  tick-running =
      let nonempty : (length ctx.processes == 0) ≡ false = ground (arith, r.some_process) in
      simp (r.active, nonempty, r.current) refl

  -- within its time
  pub tick-within :
      is_dead (ctx.table p) ≡ false
      → (ctx.table p).time + 1 < time_per_process
      → tick ctx ≡ ok (set_time ctx p ((ctx.table p).time + 1))
  unfolding tick_process
  tick-within lives early =
      let plain : add64 (ctx.table p).time 1 ≡ (ctx.table p).time + 1 = omega arith in
      let still : ltb ((ctx.table p).time + 1) time_per_process ≡ true = ground arith in
      tick-running ∙ simp (lives, plain, still) refl

  -- at the end of its time
  pub tick-over :
      is_dead (ctx.table p) ≡ false
      → time_per_process ≤ (ctx.table p).time + 1
      → (ctx.table p).time + 1 < u64_mod
      → tick ctx ≡ turn (set_time ctx p 0) p
  unfolding tick_process
  tick-over lives late fits =
      let plain : add64 (ctx.table p).time 1 ≡ (ctx.table p).time + 1 = omega arith in
      let over : ltb ((ctx.table p).time + 1) time_per_process ≡ false = ground arith in
      tick-running ∙ simp (lives, plain, over) refl

  pub tick-dead : is_dead (ctx.table p) ≡ true → tick ctx ≡ turn ctx p
  unfolding tick_process
  tick-dead gone = tick-running ∙ simp (gone) refl

  -- What `turn` makes of the search.
  pub turn_lem :
      ((q : ℕ) × (idx : ℕ) × NextRunnable ctx none q idx
        × (turn ctx p ≡ ok (if q == p then ctx else switch_to ctx p q idx)))
      ⊎ (((e : ℕ) → e < length ctx.processes → Passed ctx none e)
          × (turn ctx p ≡ ok (next_turn ctx p none)))
  unfolding turn next_turn
  turn_lem = elim (find_next_lem ctx none r.small) [
    | inl (q, idx, e, n) ↦ inl (q, idx, n, simp (e) refl)
    | inr (e, all) ↦ inr (all, simp (e) refl)
  ]

-- No process has the processor, or one that is not dead.
abbrev pub RunsAlive : SchedulerContext → Type 0
RunsAlive ctx =
    (ctx.current_process ≡ none)
    ⊎ ((q : ℕ) × (ctx.current_process ≡ some q) × (is_dead (ctx.table q) ≡ false))

pub same_status :
    (ctx : SchedulerContext) (p t q : ℕ)
    → is_dead ((set_time ctx p t).table q) ≡ is_dead (ctx.table q)
same_status ctx p t q = elim (Bool-cases (q == p)) [
  | inr other ↦ simp (other) refl
  | inl here ↦
      simp (here) (ap (λ (x : ℕ). is_dead (ctx.table x)) (let same : p ≡ q = ground arith in same))
]

switch_to-RunsAlive :
    (ctx : SchedulerContext) (p q idx : ℕ)
    → is_dead (ctx.table q) ≡ false
    → RunsAlive (switch_to ctx p q idx)
unfolding switch_to
switch_to-RunsAlive ctx p q idx h = elim (Bool-cases (is_dead (ctx.table p))) [
  | inl gone ↦ inr (q, simp (gone) refl, simp (gone) h)
  | inr stays ↦ inr (q, simp (stays) refl, simp (stays) h)
]

close_files-current :
    (fds : List (Option ℕ)) (ctx : SchedulerContext)
    → (close_files fds ctx).current_process ≡ ctx.current_process
unfolding close_files
close_files-current [] ctx = refl
close_files-current (fd ∷ fds) ctx = close_files-current fds _

next_turn-idle : (ctx : SchedulerContext) (p : ℕ) → (next_turn ctx p none).current_process ≡ none
unfolding next_turn undertaker remove_process
next_turn-idle ctx p = elim (Bool-cases (is_dead (ctx.table p))) [
  | inr stays ↦ simp (stays) refl
  | inl gone ↦
      simp (gone)
        (close_files-current (ctx.table p).file_descriptors (record ctx { current_process = none }))
]

alive→stays :
    (s : ProcessStatus)
    → s ≡ alive
    → (elim s as (λ x. Bool) [ alive ↦ false | dead ↦ true ]) ≡ false
alive→stays s h = rw h refl

turn-RunsAlive :
    (ctx : SchedulerContext) (p : ℕ)
    → IsRunning ctx p
    → (ctx' : SchedulerContext) × (turn ctx p ≡ ok ctx') × RunsAlive ctx'
turn-RunsAlive ctx p r = elim (turn_lem ctx p r) [
  | inr (all, e) ↦ (next_turn ctx p none, e, inl (next_turn-idle ctx p))
  | inl (q, idx, n, e) ↦
      let alive : is_dead (ctx.table q) ≡ false = alive→stays (ctx.table q).status n.runnable in
      elim (Bool-cases (q == p)) [
        | inl same ↦
            let at : q ≡ p = ground arith in
            (ctx, e ∙ rw same refl, inr (p, r.current, rw at at alive))
        | inr other ↦
            (switch_to ctx p q idx, e ∙ rw other refl, switch_to-RunsAlive ctx p q idx alive)
      ]
]

-- While the scheduler is unlocked and a process has the processor, and its index and time do not
-- reach 2 ^ 64, `tick` ends without an access out of bounds, and afterwards no process has the
-- processor, or one that is not dead.
pub tick-RunsAlive :
    (ctx : SchedulerContext) (p : ℕ)
    → IsRunning ctx p
    → (ctx.table p).time + 1 < u64_mod
    → (ctx' : SchedulerContext) × (tick ctx ≡ ok ctx') × RunsAlive ctx'
tick-RunsAlive ctx p r fits = elim (Bool-cases (is_dead (ctx.table p))) [
  | inl gone ↦ let (c, e, a) = turn-RunsAlive ctx p r in (c, tick-dead ctx p r gone ∙ e, a)
  | inr stays ↦ elim (Bool-cases (ltb ((ctx.table p).time + 1) time_per_process)) [
    | inl early ↦
        let t : ℕ = (ctx.table p).time + 1 in
        (
          set_time ctx p t,
          tick-within ctx p r stays (ground arith),
          inr (p, r.current, same_status ctx p t p ∙ stays),
        )
    | inr late ↦
        let (c, e, a) = turn-RunsAlive (set_time ctx p 0) p (record {
          active = r.active;
          some_process = r.some_process;
          current = r.current;
          small = r.small;
        }) in
        (c, tick-over ctx p r stays (ground arith) fits ∙ e, a)
  ]
]
