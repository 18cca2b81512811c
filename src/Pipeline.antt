-- ===== src/Pipeline.antt =====
-- codex_shim/responses_input_pipeline.py and the id rules of codex_shim/tool_translate.py.
pub mod Items
pub mod Ids
pub mod Orphans
pub mod Cleared
pub mod Prepare
