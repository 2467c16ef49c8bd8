-- ===== src/Executor.antt =====
-- include/executor: query execution by operators that are opened, asked for one tuple at a time
-- and closed.
pub mod Operator
pub mod SeqScanOp
pub mod FilterOp
pub mod LimitOp
pub mod ProjectionOp
pub mod Run
mod Tests
