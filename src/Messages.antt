-- ===== src/Messages.antt =====
-- The messages of TaskSystem/src/Messages and TaskSystem/include/TaskSystem/Messages: a class for
-- each, and the type of all of them.
pub mod Header
pub mod BarMsg
pub mod TextMsg
pub mod RefIntArrayMsg
pub mod TopologyMsg
pub mod IntArrayMsg
pub mod DoneMsg
pub mod RefTwoDimIntArrayMsg
pub mod RequestMsg
pub mod ResponseMsg
pub mod Message
pub mod Build
