-- ===== src/Files.antt =====
-- The files of a project: frontend/lib/files and frontend/types/file.type.ts.
pub mod ContentCache
pub mod Tree
pub mod ProjectFiles
pub mod Viewer
pub mod Browser
