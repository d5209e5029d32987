-- ===== src/ProcessHeap.antt =====
-- kernel/proc/procheap.cpp: `ProcessHeap`. Its pages are mapped through a `PageMapper`, here the
-- page tables of the process with the flags `NoExec | ReadWriteUser`. The switching of interrupts
-- is left out.
pub mod Laws
mod Tests
use radish_os.Prelude.{
  ℕ, zero, suc, ◌+◌, ◌*◌, ◌-◌, ◌%◌, Bool, true, false, ltb, ◌==◌, ◌^◌, if◌then◌else◌,
}
use radish_os.Prelude.Words.{add64, sub64, u64_mod}
use radish_os.Prelude.Int.{ℤ, pos, negsuc, to_u64, rounds}
use radish_os.Outcome.{Outcome, ok, ◌>>=◌}
use radish_os.Bytes.{page_size, page_align_up}
use radish_os.Heap.{PageMapper}

pub record ProcessHeap (S : Type 0) : Type 0 where
  pub start : ℕ
  pub last_page : ℕ
  pub limit : ℕ
  pub vm : S

-- the constants of kernel/include/cpu/userspace.hpp
abbrev user_stack_top : ℕ
user_stack_top = 0x7fffffffe000

abbrev user_stack_size : ℕ
user_stack_size = 64 * page_size

abbrev pub user_heap_limit : ℕ
user_heap_limit = user_stack_top - user_stack_size

-- `pages * PAGE_SIZE`, an int that is widened
abbrev pub page_bytes : ℤ → ℕ
page_bytes pages = to_u64 pages * page_size % u64_mod

module _ (pm : PageMapper) where
  open pm use {Vm, map_new, unmap}

  pub map_loop : ℕ → ℕ → Vm → Outcome Vm
  map_loop zero vaddr vm = ok vm
  map_loop (suc n) vaddr vm = do vm' ← map_new vaddr vm; map_loop n (add64 vaddr page_size) vm'

  pub unmap_loop : ℕ → ℕ → Vm → Outcome Vm
  unmap_loop zero vaddr vm = ok vm
  unmap_loop (suc n) vaddr vm = do vm' ← unmap vaddr vm; unmap_loop n (sub64 vaddr page_size) vm'

  pub extend : ProcessHeap Vm → ℤ → Outcome (Bool × ProcessHeap Vm)
  extend self pages =
      let end = add64 self.last_page (page_bytes pages) in
      if ltb self.limit end then ok (false, self) else do
        vm ← map_loop (rounds pages) self.last_page self.vm
        ok (true, record self { last_page = end; vm = vm })

  pub shorten : ProcessHeap Vm → ℤ → Outcome (Bool × ProcessHeap Vm)
  shorten self pages =
      let end = sub64 self.last_page (page_bytes pages) in
      if ltb end self.start then ok (false, self) else do
        vm ← unmap_loop (rounds pages) (sub64 self.last_page page_size) self.vm
        ok (true, record self { last_page = end; vm = vm })

  pub reset : ProcessHeap Vm → ℕ → Vm → ProcessHeap Vm
  reset self new_start vm = record {
    start = page_align_up new_start;
    last_page = page_align_up new_start;
    limit = user_heap_limit;
    vm = vm;
  }

  -- `-pages` for the `int` - n - 1; the least one stays what it is
  negated : ℕ → ℤ
  negated n = if n + 1 == 2 ^ 31 then negsuc n else pos (n + 1)

  -- `sysLastpg` of kernel/cpu/syscalls/syscalls.cpp, after the check for a process: the request and
  -- the result are `rbx` and `rax`
  pub sys_lastpg : ProcessHeap Vm → ℤ → Outcome (ℕ × ProcessHeap Vm)
  sys_lastpg self (pos zero) = ok (sub64 self.last_page page_size, self)
  sys_lastpg self (pos (suc n)) = do
    (result, self') ← extend self (pos (suc n))
    ok (if result then (sub64 self'.last_page page_size, self') else (0, self'))
  sys_lastpg self (negsuc n) = do
    (result, self') ← shorten self (negated n)
    ok (if result then (sub64 self'.last_page page_size, self') else (0, self'))
