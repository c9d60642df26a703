-- ===== src/KernelTasks.antt =====
-- src/kernel_tasks: the tasks of the kernel itself.
pub mod NetworkHandler
