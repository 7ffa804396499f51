-- ===== src/Tests.antt =====
-- Tests of the definitions, and each theorem at an input that meets its hypotheses.
mod KernelTests
mod SchedTests
mod L4Tests
mod IpcTests
mod ContainerTests
mod TimeTests
mod TimeoutTests
mod EntryTests
mod SyscallTests
mod SpaceTests
mod RegionTests
