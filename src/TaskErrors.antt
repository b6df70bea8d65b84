-- ===== src/TaskErrors.antt =====
-- Task errors: internal/core/taskerrors classifies them, internal/app/taskerrors counts them over a
-- sliding window.
pub mod Classify
pub mod Tracker
