-- ===== src/Models.antt =====
-- The rows of the database (src/patchline/models.py), one record for each table that the modelled
-- code reads or writes. A nullable column is an `Option`, a column of a fixed set of words is a data
-- type, a time is a number of seconds. Left out: `tenant_id`, which is always 1, and the audit
-- columns that no modelled code reads. `scan_branches` holds the value that its JSON text decodes to.
mod Words
mod Entities
mod Work
mod Tables
pub use Words.*
pub use Entities.*
pub use Work.*
pub use Tables.*
