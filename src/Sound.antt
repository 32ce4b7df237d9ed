-- ===== src/Sound.antt =====
-- Every transaction of the program keeps the coverage board sound (Coverage/Sound.antt).
pub mod Services
pub mod Queue
pub mod Scan
pub mod Entries
pub mod Remediations
pub mod Worker
pub mod Login
pub mod Actions
pub mod Dispatches
