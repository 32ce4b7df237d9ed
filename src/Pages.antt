-- ===== src/Pages.antt =====
-- What the read-only pages of src/patchline/routes/surfaces.py show: of the home page, the coverage pages,
-- the review page, the metrics and the health check (health.py), the data that is handed to the templates.
pub mod Home
pub mod Coverage
pub mod Review
pub mod Health
