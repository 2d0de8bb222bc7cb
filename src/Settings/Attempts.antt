-- ===== src/Settings/Attempts.antt =====
-- The external advisor of src/advisor_extension.rs under the settings of src/config.rs.
