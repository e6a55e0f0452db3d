-- ===== src/Tests.antt =====
-- Runs on concrete inputs, and instances of the theorems.
mod Codec
mod Samples
mod Rules
mod Pipeline
mod Queue
mod Access
mod Admin
mod Llm
mod Files
mod Overseer
