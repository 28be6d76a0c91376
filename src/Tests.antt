-- ===== src/Tests.antt =====
-- Tests of the definitions on concrete inputs, and the theorems at concrete inputs.
mod Sites
mod Messages
mod Agreement
mod Sending
mod Node
mod Startup
mod Loss
mod Counter
mod Hostile
mod Launch
mod Threads
mod Runs
mod Interleaving
mod Sharing
mod Pending
