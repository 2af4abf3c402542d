-- ===== src/Skills.antt =====
-- pkg/skills: finding skills and publishing them on the agent card.
pub mod Loader
pub mod Cards
