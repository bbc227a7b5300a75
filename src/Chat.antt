-- ===== src/Chat.antt =====
-- The chat of a project: frontend/types/chat.type.ts, frontend/socket and frontend/lib/chat.
pub mod Types
pub mod Events
pub mod Consolidate
pub mod Restore
pub mod Handler
pub mod Connection
pub mod Workspace
mod Tests
pub mod NewProject
pub mod Layout
pub mod Landing
pub mod Activity
pub mod ToolList
pub mod CodeListing
pub mod ToolResult
pub mod MessageBubble
pub mod Composer
pub mod Page
pub mod Showcase
pub mod InputBox
