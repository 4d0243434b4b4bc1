-- ===== src/Skills.antt =====
-- Skills: the order of their versions, backend/skill_version.py.
pub mod Version
