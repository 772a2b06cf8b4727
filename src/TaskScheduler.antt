-- ===== src/TaskScheduler.antt =====
-- The package mcvirt/task_scheduler: the queue of tasks that every node of the cluster keeps, and how
-- the nodes agree on the place of a new task.
pub mod Node
pub mod Cluster
pub mod Completion
