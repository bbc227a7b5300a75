-- ===== src/Preview.antt =====
-- The preview of a project: frontend/hooks/preview, frontend/types/preview.type.ts and its panel.
pub mod Lifecycle
pub mod Panel
