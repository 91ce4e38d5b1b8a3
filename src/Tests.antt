-- ===== src/Tests.antt =====
-- The theorems at concrete inputs.
mod Memory
mod Gpu
mod Kernel
mod Images
mod Runtime
mod Threads
mod Calls
mod Files
mod Tool
mod Window
mod Reports
