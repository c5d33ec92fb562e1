-- ===== src/Filter/Facts.antt =====
-- What the evaluation of serverbrowser/filter/eval.go means for its operators, and where it fails.
pub mod Failures
pub mod Logic
pub mod Likeness
pub mod Fuel
pub mod Tests
