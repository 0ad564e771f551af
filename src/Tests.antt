-- ===== src/Tests.antt =====
-- The theorems at concrete inputs, over a small kernel, and runs of the functions.
mod Files
mod Kernel
mod Logging
mod Values
mod Objects
mod Platforms
mod Owners
mod Calls
mod Queues
mod Devices
mod Sockets
mod Strings
mod QueueKernel
mod Exchange
mod Storage
mod Interest
mod Options
mod Notices
