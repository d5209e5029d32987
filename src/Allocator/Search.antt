-- ===== src/Allocator/Search.antt =====
-- The search for a clear bit: it starts at `last_allocated`, goes round once, and takes the first.
use radish_os.Prelude.{
  ℕ, zero, suc, ◌+◌, ◌-◌, ◌<◌, ◌≡◌, ◌⊎◌, inl, inr, true, false, ltb, leb, ◌==◌, if◌then◌else◌,
  arith, Bool-cases, ==_iff, subst,
}
use radish_os.Bitmap
use radish_os.Bitmap.{StaticBitmap}
use radish_os.Allocator.{advance, Probe, found, exhausted, probe}

-- the bit that lies d steps after `start`, for d below `size`
abbrev pub at_step : ℕ → ℕ → ℕ → ℕ
at_step size start d = if ltb (start + d) size then start + d else start + d - size

-- the first clear bit lies d steps after `start`
pub record FirstClear (size : ℕ) (b : StaticBitmap) (start d : ℕ) : Type 0 where
  pub inside : d < size
  pub clear : Bitmap.test size b (at_step size start d) ≡ false
  pub before : (e : ℕ) → e < d → Bitmap.test size b (at_step size start e) ≡ true

module _ (size : ℕ) (b : StaticBitmap) (start : ℕ) (small : start < size) where
  abbrev AllSet : ℕ → Type 0
  AllSet d = (e : ℕ) → e < d → Bitmap.test size b (at_step size start e) ≡ true

  AllSet-suc :
      (d : ℕ) → AllSet d → Bitmap.test size b (at_step size start d) ≡ true → AllSet (d + 1)
  AllSet-suc d before here e h = elim (Bool-cases (e == d)) [
    | inl same ↦ rw ((==_iff e d).0 same) here
    | inr other ↦ before e (ground arith)
  ]

  advance_step :
      (d : ℕ) → d < size → advance size (at_step size start d) ≡ at_step size start (d + 1)
  unfolding advance
  advance_step d h = ground arith

  round_trip : (d : ℕ) → d < size → (at_step size start (d + 1) == start) ≡ (d + 1 == size)
  round_trip d h = ground arith

  abbrev Finds : Probe → Type 0
  Finds p =
      ((d : ℕ) × (p ≡ found (at_step size start d)) × FirstClear size b start d)
      ⊎ ((p ≡ exhausted) × AllSet size)

  probe_lem :
      (fuel d : ℕ)
      → d + fuel ≡ size
      → d < size
      → AllSet d
      → Finds (probe size b start fuel (at_step size start d))
  unfolding probe
  probe_lem zero d e h before = absurd (omega arith)
  probe_lem (suc fuel) d e h before =
      elim (Bool-cases (Bitmap.test size b (at_step size start d))) [
        | inr clear ↦ inl (d, rw clear, record { inside = h; clear = clear; before = before })
        | inl used ↦ elim (Bool-cases (d + 1 == size)) [
          | inl last ↦ inr (
            rw (used, advance_step d h, round_trip d h, last),
            subst AllSet ((==_iff (d + 1) size).0 last) (AllSet-suc d before used),
          )
          | inr more ↦
              rw (used, advance_step d h, round_trip d h, more)
                (probe_lem fuel (d + 1) (omega arith) (ground arith) (AllSet-suc d before used))
        ]
      ]

  start_step : at_step size start 0 ≡ start
  start_step = ground arith

  -- every bit is reached
  step_of : (i : ℕ) → i < size → (d : ℕ) × (d < size) × (at_step size start d ≡ i)
  step_of i h = (if leb start i then i - start else i + size - start, ground arith, ground arith)

  all_used : AllSet size → (i : ℕ) → i < size → Bitmap.test size b i ≡ true
  all_used before i h =
      let (d, k, e) = step_of i h in subst (λ j. Bitmap.test size b j ≡ true) e (before d k)

  -- The loop ends at the first clear bit after `start`, or, having gone round, with all bits set.
  pub probe_finds :
      ((d : ℕ) × (probe size b start size start ≡ found (at_step size start d))
        × FirstClear size b start d)
      ⊎ ((probe size b start size start ≡ exhausted)
          × ((i : ℕ) → i < size → Bitmap.test size b i ≡ true))
  probe_finds = elim (probe_lem size 0 (omega arith) (omega arith) (λ e h. absurd (omega arith))) [
    | inl (d, e, f) ↦ inl (d, rw start_step at e, f)
    | inr (e, before) ↦ inr (rw start_step at e, all_used before)
  ]
