-- ===== src/Dashboard.antt =====
-- dashboard/lib and dashboard/components: the logic behind the pages.
pub mod Masks
pub mod Builder
pub mod Work
mod Tests
