-- ===== src/LinkedList.antt =====
-- kernel/include/lib/linked_list.hpp: a doubly linked list whose headers stand in the memory that
-- they describe. An address holds a header, with the fields of the derived struct in `rest`; a
-- pointer is an optional address. Reading through `nullptr` is a panic.
pub mod Nodes
use radish_os.Prelude.{ℕ, zero, suc, ◌≡◌, ◌≢◌, Option, none, some, ◌==◌, if◌then◌else◌, arith}
use radish_os.Outcome.{Outcome, ok, panic, out_of_fuel, null_pointer, ◌>>=◌}

pub record LinkedListHeader {ℓ} (P : Type ℓ) : Type ℓ where
  pub next : Option ℕ
  pub prev : Option ℕ
  pub rest : P

abbrev pub Memory {ℓ} : Type ℓ → Type ℓ
Memory P = ℕ → LinkedListHeader P

-- `hdr`, the only field of a list
abbrev pub LinkedList : Type 0
LinkedList = Option ℕ

abbrev pub deref : Option ℕ → Outcome ℕ
deref none = panic null_pointer
deref (some a) = ok a

abbrev pub first : LinkedList → Option ℕ
first l = l

abbrev pub reset : LinkedList → LinkedList
reset l = none

module _ {ℓ} {P : Type ℓ} where
  unfoldable pub write : Memory P → ℕ → LinkedListHeader P → Memory P
  write m a h x = if x == a then h else m x

  abbrev pub set_next : Memory P → ℕ → Option ℕ → Memory P
  set_next m a p = write m a (record (m a) { next = p })

  abbrev pub set_prev : Memory P → ℕ → Option ℕ → Memory P
  set_prev m a p = write m a (record (m a) { prev = p })

  abbrev pub set_rest : Memory P → ℕ → P → Memory P
  set_rest m a r = write m a (record (m a) { rest = r })

  -- `if (p) p->prev = q;`
  abbrev pub set_prev? : Memory P → Option ℕ → Option ℕ → Memory P
  set_prev? m none q = m
  set_prev? m (some a) q = set_prev m a q

  -- `while (curr->next) curr = curr->next;`
  unfoldable pub last_loop : ℕ → Memory P → ℕ → Outcome ℕ
  last_loop zero m curr = out_of_fuel
  last_loop (suc fuel) m curr = elim ((m curr).next) [
    | none ↦ ok curr
    | some n ↦ last_loop fuel m n
  ]

  unfoldable pub last : ℕ → Memory P → LinkedList → Outcome ℕ
  last fuel m l = do curr ← deref l; last_loop fuel m curr

  unfoldable pub set_base : Memory P → ℕ → LinkedList × Memory P
  set_base m base = (some base, set_prev (set_next m base none) base none)

  unfoldable pub append : ℕ → Memory P → LinkedList → ℕ → Outcome (Memory P)
  append fuel m l node = do
    end ← last fuel m l
    ok (set_next (set_prev (set_next m end (some node)) node (some end)) node none)

  pub write_self : (m : Memory P) (a : ℕ) (h : LinkedListHeader P) → write m a h a ≡ h
  unfolding write
  write_self m a h = ground arith

  pub write_ne : (m : Memory P) (a x : ℕ) (h : LinkedListHeader P) → x ≢ a → write m a h x ≡ m x
  unfolding write
  write_ne m a x h ne = ground arith
