-- ===== src/Process.antt =====
-- kernel/src/process: tasks, signals, the task registry and the life cycle.
pub mod Signal
pub mod Task
