-- ===== src/Lib.antt =====
-- A verification library for the radish operating system. Of the kernel: the physical memory
-- manager, the heap that kernel code allocates from, the vectors that the rest of the kernel keeps
-- its objects in, the scheduler, the files, children and heaps of processes, paths and powers. Of
-- user space: the shell, from a line that is typed to the program that is run.
--
-- Parts, and the files that model them:
-- - Bytes: kernel/include/lib/bytes.hpp (`alignUp`) and the rounding helpers of
--   kernel/include/mem/page.hpp, at 64 bits.
-- - Bitmap: kernel/include/lib/bitmap.hpp, `StaticBitmap<N>` in words of 64 bits.
-- - Allocator: kernel/include/mem/allocators/static_bitmap.hpp, `StaticBitmapAllocator`. The
--   do-while loop of `allocate` is `probe`, on fuel SIZE; it comes back to its start in SIZE steps.
-- - Pmm: kernel/mem/pmm.cpp and the memory map of kernel/include/boot/requests.hpp. `init` clears
--   the frames of usable entries, on fuel length / 4096 + 2 for each; `allocateFrame` and
--   `freeFrame` call the allocator.
-- - LinkedList: kernel/include/lib/linked_list.hpp, with headers in an explicit memory.
-- - Heap: kernel/include/mem/allocators/heap.hpp, `HeapAllocator`, and kernel/mem/heap.cpp. Its
--   state is the record `HeapAllocator`; the fields `memory` and `vm` hold the block headers and
--   what the page tables and the frame allocator keep. Loops over blocks have fuel for 128 blocks
--   in each page, which is as many headers as a page holds; `trim`, the loop at the end of `free`,
--   has fuel for the number of pages.
-- - Buffer and Vector: kernel/include/lib/buffer.hpp and kernel/include/lib/vector.hpp. A slot of a
--   buffer holds an object or raw memory; `Holds` says which objects a vector contains.
-- - Scheduler: kernel/proc/scheduler.cpp, with the fields of a process that it uses
--   (kernel/proc/process.cpp) and kernel/proc/kill.cpp. `tick` and `yield` are modelled up to the
--   switch of stacks; calls of the processor, the files and the frame allocator are events.
-- - Process: kernel/proc/process.cpp, the file descriptors and the children of a process.
-- - ProcessHeap: kernel/proc/procheap.cpp, the heap of a process, and `sysLastpg` of
--   kernel/cpu/syscalls/syscalls.cpp. The fuel of its loops is the number of pages asked for.
-- - Path: kernel/fs/path.cpp, `parsePath`, on fuel for the length of the path.
-- - Math: kernel/include/lib/math.hpp, `pow` at 64 bits, on fuel for the digits of the exponent.
-- - Cash: the shell, userspace/cash. Cash/CommandStart and Cash/Lexer are cash/lexer.cpp: a text is
--   read by index into tokens, on fuel for its length. Cash/Parser, Cash/Command and Cash/Program
--   are cash/parser.cpp: the calls of the parser run on fuel for their depth, six steps for each
--   token that is left, which Cash/Parser/Enough counts. Cash/Ast and Cash/Info are
--   include/cash/ast.hpp, Cash/Token the tokens, Cash/Value and Cash/Symbol the values and the table
--   of symbols (cash/value.cpp, cash/symbol.cpp), Cash/Interpreter is cash/interpreter.cpp, and
--   Cash/Shell is cash/repl.cpp and cash/main.cpp, which hand a line from one part to the next.
--   Exceptions, which the shell never catches, are the result `panic`. What C++ leaves undefined, an
--   `int` or a pointer that nothing was assigned to, is a parameter; but the quotient that an `int`
--   cannot hold is the `panic` of the trap that the processor makes of it. A text has no character 0
--   and fewer than 2 ^ 31 characters.
-- - Cash/Text and Cash/Word: what the shell uses of userspace/libraries/libc (`isspace` and its kin,
--   `atoi`) and userspace/libraries/melon (`intToString`, the comparison of strings). An `int` is a
--   word of 32 bits, which wraps.
-- - Strtol: `strtol`, `strtoul` and their `long long` twins,
--   userspace/libraries/libc/src/stdlib/conversion.c. Strtol/Scan compares the loop over digits with
--   the number without a bound, Strtol/Clamp the whole conversions. What a number in a text is stands in
--   Strtol/Number, apart from the code.
-- - Memory: kernel/lib/memory.cpp, `memcpy`, `memset` and `memmove`.
-- - Elf: kernel/proc/elf.cpp, `loadElf` from the check of the header on. Frames and page tables are
--   the interface `AddressSpace`, an argument; Elf/Page and Elf/Segment say what loaded pages hold.
-- - Outcome: how a routine ends. `Panic::panic` does not return and is the result `panic`;
--   `Ends` says that a program of user space ends, and with which exceptions it may.
-- - Prelude: shared names, and lemmas on lists, bits, counts and 64-bit words.
-- - Examples, and the children Tests of the modules: concrete inputs.
--
-- The heap calls `mapPage` with a fresh frame, and `unmapPage`. These are the interface
-- `PageMapper`, an argument of the operations of both heaps, which asks only that both return or
-- panic.
--
-- Not modelled: paging, the creation of processes, the file systems, drivers, boot, most system calls,
-- and the other programs of user space. Of the shell, the texts of its messages, and the child that
-- `fork` makes. Logging is left out. Only headers of heap blocks are in the
-- model's memory, not what clients write into their blocks. Of `loadElf`, opening and reading the file.
mod Prelude
pub mod Outcome
pub mod Bytes
pub mod Bitmap
pub mod Allocator
pub mod Pmm
pub mod LinkedList
pub mod Heap
pub mod Buffer
pub mod Vector
pub mod Scheduler
pub mod ProcessHeap
pub mod Path
pub mod Math
pub mod Process
pub mod Cash
pub mod Strtol
pub mod Memory
pub mod Elf
pub mod Examples
