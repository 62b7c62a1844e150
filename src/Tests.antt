-- ===== src/Tests.antt =====
-- The theorems at concrete inputs.
mod World
mod Data
mod Managers
mod Storage
mod Events
mod Models
mod Wire
mod Agent
mod Bridge
mod Clock
mod Configured
mod Sensing
mod Watching
mod Rules
mod Versions
