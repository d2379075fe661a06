-- ===== src/Tests/Entity.antt =====
-- A list of each entity, read out of a buffer.
mod User
mod Timetable
mod Metric
mod Scheduler
mod Process
pub mod Resource
mod Job
