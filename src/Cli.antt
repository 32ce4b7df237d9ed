-- ===== src/Cli.antt =====
-- The command line of src/patchline/cli.py: the check of the configuration and the revocation of the sessions.
pub mod VerifyConfig
pub mod RevokeSessions
