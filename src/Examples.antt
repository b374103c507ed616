-- ===== src/Examples.antt =====
-- Runs of the models, and the theorems at concrete inputs.
mod Regex
mod Parsing
mod Witnesses
mod Web
mod WebWitnesses
mod Grammar
mod Reports
mod Meanings
mod Accent
mod Engine
mod Prompt
