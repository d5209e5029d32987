-- ===== src/Vector.antt =====
-- kernel/include/lib/vector.hpp: `Vector<T>`. The allocations are taken to succeed, as the code
-- takes them. The object that `pushBack` is given is a value: it is not one of the vector's own,
-- which the buffer that `extend` frees would take away.
pub mod Slots
pub mod Push
pub mod Remove
pub mod Resize
mod Tests
use radish_os.Prelude.{
  ℕ, zero, suc, ◌+◌, ◌*◌, ◌-◌, ◌%◌, Bool, true, false, Option, none, some, List, leb, ltb, ◌==◌,
  not, if◌then◌else◌,
}
use radish_os.Prelude.Words.{u64_mod}
use radish_os.Outcome.{Outcome, ok, panic, index_out_of_range, ◌>>=◌}
use radish_os.Buffer
use radish_os.Buffer.{Buffer}

pub record Vector {ℓ} (T : Type ℓ) : Type ℓ where
  pub buf : Buffer T
  pub obj_count : ℕ
  pub capacity : ℕ

module _ {ℓ} {T : Type ℓ} where
  abbrev pub new : Vector T
  new = record { buf = Buffer.allocate 1; obj_count = 0; capacity = 1 }

  -- the loop of `extend`: the rounds that are left, `i`, `self.buf` and `new_buf`
  unfoldable pub extend_loop : ℕ → ℕ → Buffer T → Buffer T → Outcome (Buffer T)
  extend_loop zero i buf new_buf = ok new_buf
  extend_loop (suc k) i buf new_buf = do
    slot ← Buffer.at buf i
    extend_loop k (i + 1) (Buffer.destroy buf i).1 (Buffer.construct new_buf i slot).1

  pub extend : Vector T → Outcome (Vector T)
  extend self = do
    let new_capacity = self.capacity * 2 % u64_mod
    new_buf ← extend_loop self.obj_count 0 self.buf (Buffer.allocate new_capacity)
    ok (record self { buf = new_buf; capacity = new_capacity })

  -- construct behind the last object
  abbrev pub place : Vector T → T → Vector T
  place self object = record self {
    buf = (Buffer.construct self.buf self.obj_count (some object)).1;
    obj_count = self.obj_count + 1;
  }

  -- `pushBack`, and `emplaceBack` with the object that the arguments make
  pub push_back : Vector T → T → Outcome (Vector T)
  push_back self object = do
    self' ← if leb self.capacity self.obj_count then extend self else ok self
    ok (place self' object)

  -- `default` is `T{}`
  pub pop_back : T → Vector T → Outcome (Option T × Vector T)
  pop_back default self = do
    let last = self.obj_count - 1
    obj ← if ltb 0 self.obj_count then Buffer.at self.buf last else ok (some default)
    ok (
        if ltb 0 self.obj_count
        then (obj, record self { buf = (Buffer.destroy self.buf last).1; obj_count = last })
        else (obj, self))

  -- the loop of `erase`
  unfoldable pub erase_loop : ℕ → ℕ → Buffer T → Outcome (Buffer T)
  erase_loop zero i buf = ok buf
  erase_loop (suc k) i buf = do
    slot ← Buffer.at buf (i + 1)
    buf' ← Buffer.assign buf i slot
    erase_loop k (i + 1) buf'

  pub erase : Vector T → ℕ → Outcome (Bool × Vector T)
  erase self index = if leb self.obj_count index then ok (false, self) else do
    shifted ← erase_loop (self.obj_count - 1 - index) index self.buf
    let count = self.obj_count - 1
    ok (true, record self { buf = (Buffer.destroy shifted count).1; obj_count = count })

  -- `for (i = from; ...) this->buf.destroy(i)`, with the rounds that are left
  unfoldable pub destroy_loop : ℕ → ℕ → Buffer T → Buffer T
  destroy_loop zero i buf = buf
  destroy_loop (suc k) i buf = destroy_loop k (i + 1) (Buffer.destroy buf i).1

  pub clear : Vector T → Vector T
  clear self = record self { buf = destroy_loop self.obj_count 0 self.buf; obj_count = 0 }

  -- the loop that copies objects into another buffer
  unfoldable pub copy_loop : ℕ → ℕ → Buffer T → Buffer T → Outcome (Buffer T)
  copy_loop zero i buf result = ok result
  copy_loop (suc k) i buf result = do
    slot ← Buffer.at buf i
    copy_loop k (i + 1) buf (Buffer.construct result i slot).1

  -- `Vector(const Vector<T> &)`
  pub copy : Vector T → Outcome (Vector T)
  copy other = do
    buf ← copy_loop other.obj_count 0 other.buf (Buffer.allocate other.capacity)
    ok (record { buf = buf; obj_count = other.obj_count; capacity = other.capacity })

  -- what `Vector(Vector<T> &&)` leaves in its argument
  abbrev pub moved : Vector T
  moved = record { buf = Buffer.empty; obj_count = 0; capacity = 0 }

  pub to_buffer : Vector T → Outcome (Buffer T)
  to_buffer self = copy_loop self.obj_count 0 self.buf (Buffer.allocate self.obj_count)

  abbrev pub is_empty : Vector T → Bool
  is_empty self = self.obj_count == 0

  pub resize : T → Vector T → ℕ → Vector T
  resize default self new_size = record {
    buf =
        Buffer.resize default (destroy_loop (self.obj_count - new_size) new_size self.buf) new_size;
    obj_count = if ltb new_size self.obj_count then new_size else self.obj_count;
    capacity = new_size;
  }

  -- `operator []`
  pub at : Vector T → ℕ → Outcome (Option T)
  at self index =
      if leb self.obj_count index then panic index_out_of_range else Buffer.at self.buf index
