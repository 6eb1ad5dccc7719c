-- ===== src/Lib.antt =====
-- The HryOS kernel and its support library hlib: the list and the circular buffer of hlib, the
-- kernel's heap, its scheduler and interrupt table, and the way from a key to the text on the
-- screen.
--
-- Base.antt, Memory.antt, Fallible.antt and Links.antt hold what the others share: Boolean tests,
-- lists over native numbers, machine words, memory cells with commands that may fault, and doubly
-- linked segments.
--
-- LinkedList.antt (code/hlib/include/list.hpp): the nodes of `hlib::list` in memory, each operation
-- a command that reads and writes nodes through pointers. The scheduler keeps its processes in such
-- lists; LinkedList/Values.antt is the list without its nodes.
--
-- CircularBuffer.antt (code/hlib/include/circular_buffer.hpp): `hlib::circular_buffer`, the
-- keyboard's queue.
--
-- Allocator.antt (code/kernel/memory/allocator.hpp): `allocator`, the heap behind `new` and
-- `delete`. The memory holds block headers at addresses; `Allocator.free_block` is
-- `allocator::free`. KernelHeap.antt (code/kernel/memory/kernel_heap.cpp) picks the memory for it
-- and calls it under an interrupt lock.
--
-- Scheduler.antt (code/kernel/scheduler/scheduler.cpp, process.hpp): the processes, a list of
-- processes for each state, and the operations on them; Scheduler/System.antt is what they can do
-- in any order from the start on, where what runs under one lock is a step. `Scheduler.end_current`
-- is the end of `process_starter`. Stack.antt (code/hlib/include/stack.hpp) is the stack that a
-- process starts with, Pit.antt (code/kernel/drivers/pit.cpp) the timer that drives it, and
-- Mutex.antt (code/kernel/scheduler/mutex.hpp, lock_guard.hpp) the lock that its processes use.
-- Interrupts.antt (code/kernel/interrupts/interrupts.cpp, code/kernel/scheduler/int_lock.hpp): the
-- table of handlers, the callbacks, the interrupt flag and the locks. Gdt.antt
-- (code/kernel/memory/gdt.cpp): the segments.
--
-- Keyboard.antt (code/kernel/drivers/keyboard.cpp) puts key events into a circular buffer and wakes
-- the process that waits; CommandLine.antt (code/kernel/terminal/command_line.cpp) turns events
-- into a line and calls commands; Terminal.antt (code/kernel/terminal/terminal.cpp) moves the
-- cursor over a screen, a record of operations that two files fill: Terminal/Vga.antt
-- (code/kernel/drivers/vga, code/kernel/terminal/impl/vga_impl.cpp) with the text display, and
-- Terminal/VesaScreen.antt (code/kernel/terminal/impl/vesa_impl.cpp, code/kernel/fonts), which
-- `USE_VESA` in code/kernel/config.hpp picks, with glyphs drawn on the frame buffer of Vesa.antt
-- (code/kernel/drivers/vesa) and on a copy of it. Vectors.antt (code/kernel/math/vec2.hpp):
-- positions.
--
-- Format.antt (code/hlib/include/format.hpp): format strings, with which the terminal prints and
-- the log, Logger.antt (code/kernel/logger); Charconv.antt (code/hlib/include/numerics.hpp,
-- code/hlib/src/charconv.cpp): signed and unsigned whole numbers as text. Algorithm.antt and
-- Cstring.antt (code/hlib/include/algorithm.hpp, cstring.hpp): range loops and C strings.
--
-- Numbers are natural numbers; the wrap-around of 32-bit arithmetic is written out where the code
-- can reach it. Loops that follow pointers have fuel: one unit for each node or block and one for
-- the end is enough, two more where the head and the tail block of the heap are visited too; the
-- loops over the digits of a number have enough with more fuel than the number; the wait for the
-- serial port has enough with more fuel than the device answers that it is busy. The theorems ask
-- for that much. Addresses that `new` returns, what callbacks do, the value of the timer (but in
-- Pit.antt), the size of the screen and the data of the font are arguments.
--
-- Not modelled: the log lines of the other parts, the registers of processes and their stacks once
-- they run, boot code and assembly, floating-point conversion, and the compile-time headers of
-- hlib.
pub mod Base
pub mod Memory
pub mod Links
pub mod LinkedList
pub mod CircularBuffer
pub mod Allocator
pub mod KernelHeap
pub mod Scheduler
pub mod Mutex
pub mod Interrupts
pub mod Gdt
pub mod Fallible
pub mod Algorithm
pub mod Vectors
pub mod Vesa
pub mod Terminal
pub mod Cstring
pub mod Format
pub mod Keyboard
pub mod Charconv
pub mod CommandLine
pub mod Pit
pub mod Logger
pub mod Stack
