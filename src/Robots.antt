-- ===== src/Robots.antt =====
-- The robots.txt matcher of src/robots.c.
pub mod Path
pub mod Agents
pub mod Query
pub mod Names
pub mod Parser
