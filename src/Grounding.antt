-- ===== src/Grounding.antt =====
-- grounding/: whether quotations and citations in the case's documents stand in held primary texts.
pub mod Authorities
pub mod Primary
pub mod Quotes
pub mod Classify
pub mod Check
