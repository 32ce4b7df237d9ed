-- ===== src/Diff.antt =====
-- Unified diffs: their hunks and how they are applied (src/patchline/core/diffapply.py), and their
-- canonical form and its hash (src/patchline/core/diffhash.py).
pub mod Lines
pub mod Hunks
pub mod Apply
pub mod Files
pub mod Hash
pub mod RoundTrip
pub mod Order
pub mod Misplaced
