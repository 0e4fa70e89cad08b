-- ===== src/Tests.antt =====
-- Tests: runs of the definitions on concrete inputs, and an example of each theorem with
-- hypotheses.
pub mod World
pub mod Links
mod Requests
mod Concurrency
mod Caching
mod Numbers
mod Serving
mod Operations
mod Handlers
pub mod Database
mod Schema
pub mod Wiring
mod Process
mod Success
mod Attempts
mod Races
mod EndToEnd
