-- ===== src/Tests.antt =====
-- Runs of the model at concrete inputs, and the theorems at inputs where their hypotheses hold.
mod WireTests
mod TextTests
mod ServerTests
mod TapTests
mod DebugTests
mod HookTests
mod UprTests
mod ChannelTests
mod ClientTests
mod CommandTests
