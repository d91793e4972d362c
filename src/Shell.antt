-- ===== src/Shell.antt =====
-- frontend/src/components/Shell.tsx, the frame around the pages.
pub mod Routes
pub mod Menu
pub mod Badges
pub mod Frame
mod Tests
