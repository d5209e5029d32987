-- ===== src/Scheduler/Search.antt =====
-- `findNextRunnableProcess`: once round the processes, from the one behind the current index.
use radish_os.Prelude.{
  ℕ, zero, suc, ◌+◌, ◌%◌, ◌<◌, ◌≡◌, ◌≢◌, refl, ◌∙◌, ◌⊎◌, inl, inr, Bool, true, false, ==_iff,
  ==_refl, ap, Option, none, some, List, [], ◌∷◌, arith, ◌==◌, if◌then◌else◌, length, Bool-cases,
}
use native.Mathlib.Nat.{mod-lt}
use radish_os.Outcome.{ok}
use radish_os.Prelude.Words.{add64, u64_mod}
use radish_os.Vector.Remove.{get_elem?}
use radish_os.Scheduler.{
  SchedulerContext, ProcessStatus, alive, dead, is_dead, same?, eligible, find_loop,
  find_next_runnable_process, index,
}

get_elem?-inside : (xs : List ℕ) (i : ℕ) → i < length xs → (x : ℕ) × (get_elem? xs i ≡ some x)
get_elem?-inside [] i h = absurd (omega arith)
get_elem?-inside (x ∷ xs) zero h = (x, refl)
get_elem?-inside (x ∷ xs) (suc i) h = get_elem?-inside xs i (omega arith)

-- the index d steps behind the current one
abbrev pub behind : SchedulerContext → ℕ → ℕ
behind ctx d = (ctx.current_process_index + 1 + d) % length ctx.processes

-- the process there is dead, or is `old_proc`
abbrev pub Passed : SchedulerContext → Option ℕ → ℕ → Type 0
Passed ctx old_proc d =
    (q : ℕ) × (get_elem? ctx.processes (behind ctx d) ≡ some q)
    × (((ctx.table q).status ≡ dead) ⊎ (old_proc ≡ some q))

is_dead→dead :
    (s : ProcessStatus) → (elim s as (λ x. Bool) [ alive ↦ false | dead ↦ true ]) ≡ true → s ≡ dead
is_dead→dead alive h = absurd (ground (arith, h))
is_dead→dead dead h = refl

not_dead→alive :
    (s : ProcessStatus)
    → (elim s as (λ x. Bool) [ alive ↦ false | dead ↦ true ]) ≡ false
    → s ≡ alive
not_dead→alive alive h = refl
not_dead→alive dead h = absurd (ground (arith, h))

same?→≡ : (p : ℕ) (o : Option ℕ) → same? p o ≡ true → o ≡ some p
same?→≡ p none h = absurd (ground (arith, h))
same?→≡ p (some q) h = rw ((==_iff p q).0 h) refl

differs : (p : ℕ) (o : Option ℕ) → same? p o ≡ false → o ≢ some p
differs p none h e = cc
differs p (some q) h e =
    let same : same? p (some q) ≡ same? p (some p) = ap (same? p) e in
    ground (arith, h, same, ==_refl p)

not_eligible :
    (ctx : SchedulerContext) (old_proc : Option ℕ) (q : ℕ)
    → eligible ctx old_proc q ≡ false
    → ((ctx.table q).status ≡ dead) ⊎ (old_proc ≡ some q)
not_eligible ctx old_proc q h = elim (Bool-cases (is_dead (ctx.table q))) [
  | inl gone ↦ inl (is_dead→dead (ctx.table q).status gone)
  | inr stays ↦ inr (same?→≡ q old_proc (ground (arith, h, stays)))
]

-- `p`, at `idx`, is the first process behind the current index that can run
pub record NextRunnable (ctx : SchedulerContext) (old_proc : Option ℕ) (p idx : ℕ) : Type 0 where
  pub steps : ℕ
  pub within : steps < length ctx.processes
  pub at : idx ≡ behind ctx steps
  pub listed : get_elem? ctx.processes idx ≡ some p
  pub runnable : (ctx.table p).status ≡ alive
  pub other : old_proc ≢ some p
  pub passed : (e : ℕ) → e < steps → Passed ctx old_proc e

module _ (ctx : SchedulerContext) (old_proc : Option ℕ)
    (small : ctx.current_process_index + 1 + length ctx.processes < u64_mod) where
  process_at :
      (d : ℕ)
      → d < length ctx.processes
      → (p : ℕ) × (get_elem? ctx.processes (behind ctx d) ≡ some p)
  process_at d h =
      get_elem?-inside ctx.processes (behind ctx d)
        (mod-lt (ctx.current_process_index + 1 + d) (omega arith))

  pub find_step :
      (k i p : ℕ)
      → i < length ctx.processes
      → get_elem? ctx.processes (behind ctx i) ≡ some p
      → find_loop (suc k) i ctx old_proc ≡ (
          if eligible ctx old_proc p
          then ok (some (p, behind ctx i))
          else find_loop k (i + 1) ctx old_proc)
  unfolding find_loop
  find_step k i p h e =
      let plain : add64 (add64 ctx.current_process_index 1) i ≡ ctx.current_process_index + 1 + i =
        omega arith in
      let at : index ctx.processes ((ctx.current_process_index + 1 + i) % length ctx.processes)
          ≡ ok p =
        rw (index, e) refl in
      simp (plain, at) refl

  find_loop_lem :
      (k i : ℕ)
      → k + i ≡ length ctx.processes
      → ((e : ℕ) → e < i → Passed ctx old_proc e)
      → ((p : ℕ) × (idx : ℕ) × (find_loop k i ctx old_proc ≡ ok (some (p, idx)))
          × NextRunnable ctx old_proc p idx)
        ⊎ ((find_loop k i ctx old_proc ≡ ok none)
            × ((e : ℕ) → e < length ctx.processes → Passed ctx old_proc e))
  find_loop_lem zero i s before = inr ((unfold find_loop in refl), λ e h. before e (omega arith))
  find_loop_lem (suc k) i s before =
      let (p, at) = process_at i (omega arith) in
      elim (Bool-cases (eligible ctx old_proc p)) [
        | inl can ↦ inl (
          p,
          behind ctx i,
          find_step k i p (omega arith) at ∙ rw can refl,
          record {
            steps = i;
            within = omega arith;
            at = refl;
            listed = at;
            runnable = not_dead→alive (ctx.table p).status (ground (arith, can));
            other = differs p old_proc (ground (arith, can));
            passed = before;
          },
        )
        | inr cannot ↦
            let step : find_loop (suc k) i ctx old_proc ≡ find_loop k (i + 1) ctx old_proc =
              find_step k i p (omega arith) at ∙ rw cannot refl in
            elim (find_loop_lem k (i + 1) (omega arith) (λ e h. elim (Bool-cases (e == i)) [
              | inl here ↦
                  (let same : e ≡ i = ground arith in
                    rw same (p, at, not_eligible ctx old_proc p cannot))
              | inr other ↦ before e (ground arith)
            ])) [
              | inl (q, idx, e, n) ↦ inl (q, idx, step ∙ e, n)
              | inr (e, all) ↦ inr (step ∙ e, all)
            ]
      ]

  -- Where the current index is small enough not to wrap, the search ends without an access out of
  -- bounds: it finds the first process behind the current index, going round, that is not dead and
  -- not `old_proc`, or it returns null, and then there is no such process.
  pub find_next_lem :
      ((p : ℕ) × (idx : ℕ) × (find_next_runnable_process ctx old_proc ≡ ok (some (p, idx)))
        × NextRunnable ctx old_proc p idx)
      ⊎ ((find_next_runnable_process ctx old_proc ≡ ok none)
          × ((e : ℕ) → e < length ctx.processes → Passed ctx old_proc e))
  unfolding find_next_runnable_process
  find_next_lem = find_loop_lem (length ctx.processes) 0 (omega arith) (λ e h. absurd (omega arith))
