-- ===== src/Lib.antt =====
-- Verification library for andsifr (wazero), a WebAssembly runtime in Go.
--
-- A file of this library stands for one Go file; its definitions have the Go names in snake case. A
-- method is a function of the state that it reads, and answers the state that it leaves with its
-- results. A Go call that may panic answers an Outcome (Common/Outcome): ok, panic, or stuck where the
-- fuel of a loop ends. An error value is a Result (Common/Result). Numbers are natural numbers, and the
-- wrap of a machine word is written out. A slice is a list, or for a memory a function from addresses
-- with a length and a capacity.
--
-- The parts, and how they interact:
--   Descriptor       internal/descriptor/table.go, the table of file descriptors of a guest: bit masks
--                    and items. View and Map say which partial map a table stands for; the children
--                    Update, Insert, Range and Count prove each method against that map.
--   Leb128           internal/leb128/leb128.go, the integers of the binary format, which the decoder of
--                    modules and the constant expressions read.
--   Memory           internal/wasm/memory.go, a linear memory: host access, with Memory/Grow for its life
--                    (Memory.Validate of internal/wasm/module.go, NewMemoryInstance, Grow) and
--                    Memory/Waiters for the wait and notify instructions of threads.
--   Table            internal/wasm/table.go, TableInstance.Grow.
--   Store            internal/wasm/store_module_list.go, the modules of a store and their names, and the
--                    locked part of CloseWithExitCode in internal/wasm/store.go.
--   ConstExpr        internal/wasm/const_expr.go, the constant expressions of globals, tables and
--                    segments: Machine has the cases of the evaluator, Evaluate its loop, and Decode
--                    (internal/wasm/binary/const_expr.go) reads the expressions from a binary. Walk
--                    says what a well-formed expression is; Accept, Opcodes and Reading prove that the
--                    decoder reads such, Cases and Safety what the evaluator does on them.
--   Validation       internal/wasm/func_validation.go, the operand stack of the validator of functions
--                    (Stack), against the frames of the specification (Frame, Popped, Require, Blocks);
--                    Types has the value types of internal/wasm/module.go, Forms and Subtyping what
--                    their words stand for; BlockType is the decoder of block types.
--   Epochs           internal/wasm/execution.go: the calls in flight, and the memories of closed modules
--                    that wait for them. Count, Order and Valid are the invariant, Keep and Pins the
--                    safety of a running call, Sweep and Quiet that nothing waits for ever. Imports is the
--                    search for live importers, Scan and Importers what it finds.
--   Closing          internal/wasm/module_instance.go, how a module is closed: the word of exit code and
--                    flag, and the resources. Store takes a module off its list first.
--
-- State and steps. Methods under a lock are single functions. The waiters of a memory are shared by
-- threads: Memory/Waiters has a step relation whose steps are the critical sections and the channel
-- operations, in any order, and Reachable for what they lead to. Epochs has one whose steps are the
-- atomic operations of any number of calls; a call inside a call counts as one of its own. Modules of
-- a store are linked through each other; the heap is a function from pointers to the linked fields.
--
-- Fuel. The encoders of Leb128 have 10 rounds, enough for 64 bits at 7 a byte; Insert of Descriptor has
-- 2, since the part that grow adds is free; the filling loop of a table has 32, since its step doubles
-- and a length fits 32 bits; following the links of a store takes as much fuel as there are modules,
-- a constant expression a round a byte, and the search for importers a round a module. The theorems
-- that say that a call returns prove these bounds.
--
-- Parameters: the allocator of a memory and what LinearMemory documents of it, the module engine, the
-- reader of an atomic value, the callback of Range, which does not touch the table, the
-- resolvers of globals and functions of a constant expression, the structural equivalence of the types
-- of a module, which is any function, and the float conversions of package math. Not modelled: the
-- engines, the loop of function validation over the instructions, the binary decoder but for its
-- integers and constant expressions, instantiation, the host interface, and what only prints.
pub mod Closing
pub mod Common
pub mod ConstExpr
pub mod Descriptor
pub mod Epochs
pub mod Leb128
pub mod Memory
pub mod Store
pub mod Table
pub mod Validation
