-- ===== src/Tasks.antt =====
-- The tasks of TaskSystem/src/Tasks.
pub mod Dispatch
pub mod Spawn
pub mod Qsort
pub mod BucketTask
pub mod SampleSortTask
pub mod Demonstration
pub mod WeatherStationTask
pub mod WeatherClientTask
pub mod DatabaseTask
pub mod ClientTask
