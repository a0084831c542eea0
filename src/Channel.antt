-- ===== src/Channel.antt =====
-- lab06/channel/channel.h and channel.c: one buffer in shared memory, guarded by one mutex.
-- A function here is a critical section: what the code does between taking and releasing
-- `data_mtx`. A call that finds the channel in the wrong state waits on a condition variable.
mod Calls
pub mod System
pub mod Delivery
mod Tests
pub use Calls.{Status, uninitialized, empty, occupied, depleted, Channel, channel_size}
pub use Calls.{Reply, blocked, overrun, done}
unfoldable pub use Calls.{memcpy, open_channel, produce, consume, deplete}
