-- ===== src/Examples.antt =====
-- The theorems at concrete inputs, and tests of the definitions.
mod Fixtures
mod Board
mod Scans
mod Queue
mod Diffs
mod Dispatches
mod Hooks
mod Web
mod Work
mod Forms
