-- ===== src/Heap.antt =====
-- kernel/include/mem/allocators/heap.hpp: `HeapAllocator<T>`, and kernel/mem/heap.cpp, whose
-- functions call it. Blocks follow one another in the heap's pages, each behind its header.
pub mod Layout
pub mod Search
pub mod Around
pub mod Carve
pub mod Invariant
pub mod Take
pub mod Extend
pub mod Grow
pub mod Allocate
pub mod Merge
pub mod Neighbours
pub mod Shorten
pub mod Trim
pub mod Free
pub mod Start
use radish_os.Prelude.{
  ℕ, zero, suc, ◌+◌, ◌*◌, ◌/◌, ◌≢◌, Bool, true, false, not, ◌&&◌, Option, none, some, ltb, leb,
  ◌==◌, if◌then◌else◌,
}
use radish_os.Prelude.Words.{add64, sub64}
use radish_os.Outcome.{Outcome, ok, panic, out_of_fuel, double_free, new_block_is_null, ◌>>=◌}
use radish_os.Bytes.{align_up, page_size}
use radish_os.LinkedList.{
  LinkedList, LinkedListHeader, Memory, deref, first, write, set_next, set_prev?, set_rest, last,
  reset, set_base, append,
}

-- What the heap needs of `kcontext().pml4t()` and `Pmm`: to map a fresh frame at a page, and to
-- unmap a page.
pub record PageMapper : Type 1 where
  pub Vm : Type 0
  -- `mapPage(page, Pmm::allocateFrame(), PageFlag::ReadWrite | PageFlag::NoExec)`
  pub map_new : ℕ → Vm → Outcome Vm
  pub unmap : ℕ → Vm → Outcome Vm
  -- both end: they return or panic
  pub map_ends : (page : ℕ) (s : Vm) → map_new page s ≢ out_of_fuel
  pub unmap_ends : (page : ℕ) (s : Vm) → unmap page s ≢ out_of_fuel

-- the fields that `BlockHeader` adds to those of a list header
pub record Block : Type 0 where
  pub bytes : ℕ
  pub free : Bool

-- sizeof(BlockHeader): two pointers, a usize and a bool, padded
abbrev pub header_size : ℕ
header_size = 32

pub record HeapAllocator (S : Type 0) : Type 0 where
  pub base : ℕ
  pub alignment : ℕ
  pub pages : ℕ
  pub block_list : LinkedList
  pub curr_block : Option ℕ
  pub memory : Memory Block
  pub vm : S

-- A page holds 128 headers, so no list of blocks is longer than this.
abbrev pub block_fuel : {S : Type 0} → HeapAllocator S → ℕ
block_fuel self = self.pages * 128 + 1

unfoldable pub create_block : Memory Block → ℕ → ℕ → Bool → Option ℕ → Option ℕ → Memory Block
create_block m base bytes free prev next = write m base (record {
  next = next;
  prev = prev;
  rest = record { bytes = sub64 bytes header_size; free = free };
})

unfoldable pub find_loop : ℕ → Memory Block → ℕ → Option ℕ → Outcome (Option ℕ)
find_loop fuel m min_size none = ok none
find_loop zero m min_size (some a) = out_of_fuel
find_loop (suc fuel) m min_size (some a) =
    let later = find_loop fuel m min_size (m a).next in
    if (m a).rest.free && leb min_size (m a).rest.bytes then ok (some a) else later

pub find_free_block : {S : Type 0} → HeapAllocator S → ℕ → Outcome (Option ℕ)
unfolding find_loop
find_free_block self min_size =
    find_loop (block_fuel self) self.memory min_size (first self.block_list)

-- `splitBlock`: `curr_block` is the block that was found
unfoldable pub split_block : {S : Type 0} → HeapAllocator S → ℕ → Outcome (HeapAllocator S)
unfolding create_block
split_block self base_size = do
  curr ← deref self.curr_block
  let rem = sub64 (self.memory curr).rest.bytes base_size
  let block_base = add64 (add64 curr header_size) base_size
  let created = create_block self.memory block_base rem true (some curr) (self.memory curr).next
  let linked =
      set_next (set_prev? created (created curr).next (some block_base)) curr (some block_base)
  let cut = set_rest linked curr (record (linked curr).rest { bytes = base_size })
  if leb (add64 header_size self.alignment) rem
      then elim ((linked curr).next) [
        | none ↦ panic new_block_is_null
        | some _ ↦ ok (record self { memory = cut })
      ]
      else ok self

-- the test of the loop in `shorten`: a block in use reaches the last page
unfoldable pub reaches_loop : ℕ → Memory Block → ℕ → Option ℕ → Outcome Bool
reaches_loop fuel m last_page none = ok false
reaches_loop zero m last_page (some a) = out_of_fuel
reaches_loop (suc fuel) m last_page (some a) =
    let later = reaches_loop fuel m last_page (m a).next in
    let end = add64 (add64 a header_size) (m a).rest.bytes in
    if not (m a).rest.free && leb last_page end then ok true else later

-- `hdr` swallows the block behind it, if that is free
unfoldable pub merge_next_at : Memory Block → ℕ → Option ℕ → Memory Block
merge_next_at m hdr none = m
merge_next_at m hdr (some n) =
    let grown = set_rest m hdr (record (m hdr).rest {
      bytes = add64 (m hdr).rest.bytes (add64 header_size (m n).rest.bytes);
    }) in
    let cut = set_next grown hdr (grown n).next in
    if (m n).rest.free then set_prev? cut (cut hdr).next (some hdr) else m

pub merge_next : Memory Block → ℕ → Memory Block
unfolding merge_next_at
merge_next m hdr = merge_next_at m hdr (m hdr).next

-- the block before `hdr` swallows it, if that is free
unfoldable pub merge_prev_at : Memory Block → ℕ → Option ℕ → Memory Block
merge_prev_at m hdr none = m
merge_prev_at m hdr (some p) =
    let grown = set_rest m p (record (m p).rest {
      bytes = add64 (m p).rest.bytes (add64 header_size (m hdr).rest.bytes);
    }) in
    let cut = set_next grown p (grown hdr).next in
    if (m p).rest.free then set_prev? cut (cut hdr).next (cut hdr).prev else m

pub merge_prev : Memory Block → ℕ → Memory Block
unfolding merge_prev_at
merge_prev m hdr = merge_prev_at m hdr (m hdr).prev

module _ (pm : PageMapper) where
  open pm use {Vm, map_new, unmap}

  abbrev pub Self : Type 0
  Self = HeapAllocator Vm

  pub extend : Self → Outcome Self
  unfolding create_block
  extend self = do
    let new_page = add64 self.base (page_size * self.pages)
    vm ← map_new new_page self.vm
    let mapped = record self { vm = vm; pages = self.pages + 1 }
    end ← last (block_fuel mapped) self.memory self.block_list
    let m = self.memory
    let created = create_block m new_page page_size true (some end) none
    if (m end).rest.free
        then ok (record mapped {
          memory =
              set_rest m end (record (m end).rest { bytes = add64 (m end).rest.bytes page_size });
        })
        else do
          appended ← append (block_fuel mapped) created self.block_list new_page
          ok (record mapped { memory = appended })

  pub extend_times : ℕ → Self → Outcome Self
  extend_times zero self = ok self
  extend_times (suc n) self = do self' ← extend self; extend_times n self'

  -- the free last block is cut at `last_page`, or taken out of the list; `none` is `return false`
  pub drop_last : Self → ℕ → ℕ → Option Self
  drop_last self last_page block =
      let m = self.memory in
      let header_end = add64 block header_size in
      let out : Self = elim ((m block).prev) [
        | none ↦ record self { block_list = reset self.block_list }
        | some p ↦ record self { memory = set_next m p none }
      ] in
      let cut = set_rest m block (record (m block).rest { bytes = sub64 last_page header_end }) in
      if leb last_page block
      then some out
      else if leb header_end last_page
      then some (record self { memory = set_next cut block none })
      else none

  -- the last page goes, where the list could be cut
  pub drop_page : Self → ℕ → Option Self → Outcome (Bool × Self)
  drop_page self last_page none = ok (false, self)
  drop_page self last_page (some self') = do
    vm ← unmap last_page self'.vm
    ok (true, record self' { vm = vm; pages = sub64 self'.pages 1 })

  -- the rest of `shorten`, once nothing in use reaches the last page
  pub shorten_last : Self → ℕ → Outcome (Bool × Self)
  shorten_last self last_page = do
    end ← last (block_fuel self) self.memory self.block_list
    if not (self.memory end).rest.free
        then ok (false, self)
        else drop_page self last_page (drop_last self last_page end)

  pub shorten : Self → Outcome (Bool × Self)
  shorten self =
      let last_page = add64 self.base (page_size * sub64 self.pages 1) in
      if leb self.pages 1 then ok (false, self) else do
        reached ← reaches_loop (block_fuel self) self.memory last_page (first self.block_list)
        if reached then ok (false, self) else shorten_last self last_page

  -- `while (this->pages > 1)` at the end of `free`
  pub trim : ℕ → Self → Outcome Self
  trim zero self = out_of_fuel
  trim (suc fuel) self = if leb self.pages 1 then ok self else do
    end ← last (block_fuel self) self.memory self.block_list
    if not (self.memory end).rest.free then ok self else do
      (shorter, self') ← shorten self
      let rest = trim fuel self'
      if shorter then rest else ok self'

  pub init : Self → ℕ → ℕ → Outcome Self
  init self base alignment = do
    vm ← map_new base self.vm
    let based = set_base self.memory base
    new_list ← deref (first based.0)
    ok (record {
      base = base;
      alignment = alignment;
      pages = 1;
      block_list = based.0;
      curr_block = none;
      memory =
          set_rest based.1 new_list (record { bytes = sub64 page_size header_size; free = true });
      vm = vm;
    })

  -- the end of `allocate`, with the block that was found
  pub take_block : Self → ℕ → ℕ → Outcome (Option ℕ × Self)
  take_block self n block = do
    self' ← split_block (record self { curr_block = some block }) n
    let taken = set_rest self'.memory block (record (self'.memory block).rest { free = false })
    ok (some (add64 block header_size), record self' { memory = taken })

  -- `nullptr` is `none`
  pub allocate : Self → ℕ → Outcome (Option ℕ × Self)
  unfolding take_block extend_times extend find_free_block
  allocate self n = do
    let n' = align_up n self.alignment
    let required_pages = align_up (add64 n' header_size) page_size / page_size
    block ← find_free_block self n'
    elim block [
      | some a ↦ take_block self n' a
      | none ↦ do
        grown ← extend_times required_pages self
        again ← find_free_block grown n'
        elim again [ none ↦ ok (none, grown) | some a ↦ take_block grown n' a ]
    ]

  unfoldable pub free : Self → ℕ → Outcome Self
  free self n =
      let hdr = sub64 n header_size in
      let m = self.memory in
      let marked = set_rest m hdr (record (m hdr).rest { free = true }) in
      if (m hdr).rest.free
      then panic double_free
      else trim self.pages (record self { memory = merge_prev (merge_next marked hdr) hdr })

-- kernel/mem/heap.cpp
abbrev pub heap_start : ℕ
heap_start = 0xfffffe8000000000
