-- ===== src/App.antt =====
-- package app: the services that keep the tables up to date.
pub mod Fetch
mod Tests
