-- ===== src/Entity.antt =====
-- The entities of the database, as C++ classes that are made from Erlang records: c_src/lib.
pub mod User
pub mod Global
pub mod Timetable
pub mod Image
pub mod Account
pub mod Executable
pub mod Relocation
pub mod Role
pub mod Resource
pub mod Metric
pub mod BootInfo
pub mod Queue
pub mod Hook
pub mod Scheduler
pub mod Process
pub mod Cluster
pub mod Grid
pub mod Partition
pub mod Node
pub mod Remote
pub mod Job
pub mod SchedulerResult
