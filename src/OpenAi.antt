-- ===== src/OpenAi.antt =====
-- src/openai: the errors that the gateway answers with.
pub mod Errors
pub mod Json
pub mod Bodies
pub mod Request
pub mod Tree
pub mod Tests
