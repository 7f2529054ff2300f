-- ===== src/Login.antt =====
-- web/controllers/login.go: the protection of the login against guessing.
pub mod Attempts
pub mod Work
