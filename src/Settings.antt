-- ===== src/Settings.antt =====
-- The site parameters (site_settings).
pub mod Values
pub mod Params
