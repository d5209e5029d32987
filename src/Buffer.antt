-- ===== src/Buffer.antt =====
-- kernel/include/lib/buffer.hpp: `Buffer<T>`, the part that vectors use. A slot is `none` while no
-- object is constructed in it. Moving an object out of a slot leaves the slot to be destroyed or
-- overwritten, which the callers do, and is a copy here.
use radish_os.Prelude.{
  ℕ, zero, suc, Bool, true, false, Option, none, some, List, [], ◌∷◌, leb, if◌then◌else◌, length,
  get_or, set, replicate,
}
use radish_os.Outcome.{Outcome, ok, panic, index_out_of_range}

pub record Buffer {ℓ} (T : Type ℓ) : Type ℓ where
  pub slots : List (Option T)

module _ {ℓ} {T : Type ℓ} where
  abbrev pub size : Buffer T → ℕ
  size self = length self.slots

  -- `Buffer()`, and what a move leaves behind
  abbrev pub empty : Buffer T
  empty = record { slots = [] }

  -- `Buffer(usize size)`: raw memory
  abbrev pub allocate : ℕ → Buffer T
  allocate n = record { slots = replicate n none }

  unfoldable pub construct : Buffer T → ℕ → Option T → Bool × Buffer T
  construct self index slot =
      if leb (size self) index
      then (false, self)
      else (true, record { slots = set self.slots index slot })

  unfoldable pub destroy : Buffer T → ℕ → Bool × Buffer T
  destroy self index =
      if leb (size self) index
      then (false, self)
      else (true, record { slots = set self.slots index none })

  -- `operator []`, read
  unfoldable pub at : Buffer T → ℕ → Outcome (Option T)
  at self index =
      if leb (size self) index then panic index_out_of_range else ok (get_or self.slots index none)

  -- `operator []`, assigned to
  unfoldable pub assign : Buffer T → ℕ → Option T → Outcome (Buffer T)
  assign self index slot =
      if leb (size self) index
      then panic index_out_of_range
      else ok (record { slots = set self.slots index slot })

  -- the first slots of `resize`: those of the old buffer, over objects that `new T[]` made
  unfoldable pub resized : T → ℕ → List (Option T) → List (Option T)
  resized default zero old = []
  resized default (suc n) [] = some default ∷ resized default n []
  resized default (suc n) (slot ∷ old) = slot ∷ resized default n old

  abbrev pub resize : T → Buffer T → ℕ → Buffer T
  resize default self new_size = record { slots = resized default new_size self.slots }
