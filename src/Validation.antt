-- ===== src/Validation.antt =====
-- Function validation: Types has the value types of internal/wasm/module.go and their subtyping, Stack
-- the operand stack of internal/wasm/func_validation.go.
pub mod Types
pub mod Forms
pub mod Subtyping
pub mod Stack
pub mod Frame
pub mod Popped
pub mod Require
pub mod Blocks
pub mod BlockType
pub mod BlockResult
mod Tests
