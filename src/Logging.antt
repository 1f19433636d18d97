-- ===== src/Logging.antt =====
-- The parts of internal/logging that decide something: which entries are logged
-- (sampling.go), what an error is called (errors.go), and what is shown of a secret (masking.go).
pub mod Window
pub mod Sampler
pub mod Categories
