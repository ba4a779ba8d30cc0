-- ===== src/Samples.antt =====
-- Concrete third-party components, which show that their interfaces can be met, and the tests.
mod Buffers
mod Services
mod Crowds
mod BufferTests
mod ThreadTests
mod CrowdTests
mod QueueCrowds
mod GatherTests
mod ServerTests
mod PoolTests
mod SyncTests
mod OutputTests
mod QueueTests
mod ProgramTests
mod EndingTests
pub use Buffers.*
pub use Services.*
pub use Crowds.*
