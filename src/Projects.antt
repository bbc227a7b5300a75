-- ===== src/Projects.antt =====
-- The projects of a user: frontend/lib/projects and frontend/types/project.type.ts.
pub mod Filters
pub mod Collection
pub mod Page
