-- ===== src/Tests.antt =====
-- The theorems at concrete inputs.
mod Samples
mod Queues
mod Messaging
mod Sorting
mod Names
mod Times
mod Database
mod TaskLoops
mod Weather
mod Rounds
mod Waking
mod Demonstration
mod RoundThree
mod Schedules
