-- ===== src/Tests.antt =====
-- The theorems at concrete inputs, and runs of the definitions.
mod Lists
mod Hashes
mod Values
mod Trees
mod Logs
mod Threads
mod Pools
