-- ===== src/Buffer/Manager.antt =====
-- buffer/buffer_manager.go: a deque of buffer blocks with limits, kept in a linked list (dynamic
-- mode) or in a ring of slots (static mode). `container/list` is a list here, and an operation
-- returns the new manager beside its result. Sizes, numbers and limits are natural numbers: a caller
-- gives none that is negative. The bytes of a block are any bytes, since clients write them through
-- the slices that they get; in static mode the first block shares the fixed buffer, and what a client
-- writes there is not followed into the next first block.
pub mod Types
pub mod Dynamic
pub mod Static
pub mod Ops
pub mod Deque
pub mod Window
pub mod Ring
pub mod RingPush
pub mod RingPop
pub mod View
mod Tests
