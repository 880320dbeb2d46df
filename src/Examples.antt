-- ===== src/Examples.antt =====
-- The theorems at concrete inputs: each section of the development has a child here.
mod Data
mod Screen
mod Sdl
mod Panels
mod Levels
mod Rounding
mod Locks
mod Resources
mod Threads
mod Lifetime
mod Interleaving
mod Desk
mod Win
mod Pthread
