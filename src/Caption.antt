-- ===== src/Caption.antt =====
-- What is extracted from a caption: src/api/services/captionParser.ts.
pub mod Parser
pub mod Entities
