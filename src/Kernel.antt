-- ===== src/Kernel.antt =====
-- The kernel proper, kernel/include and kernel/src: task descriptors, their allocators and queues, the
-- system calls and the main loop.
pub mod Task
pub mod Links
pub mod TaskQueue
pub mod EventQueue
pub mod StackAlloc
pub mod TaskAlloc
pub mod Stopwatch
pub mod State
pub mod Message
pub mod Syscall
pub mod Interrupts
pub mod Main
mod Example
