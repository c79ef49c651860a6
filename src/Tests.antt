-- ===== src/Tests.antt =====
-- Examples: the drivers of the model in memory, and each property at a concrete input.
mod InMemory
mod Samples
mod Steady
mod Processing
mod Overlapping
mod Publishing
mod Components
mod Services
mod Messaging
mod Gateway
mod Bank
mod Pool
mod Loading
mod Producers
mod Programs
mod Polling
