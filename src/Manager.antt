-- ===== src/Manager.antt =====
-- include/manager.hpp and src/manager.cpp, `Manager::process`: the receive half (`Receive`) and
-- the transmit half (`Transmit`), with what they keep of the buffers.
pub mod Receive
pub mod ReceiveLaws
pub mod Transmit
pub mod Conserve
pub mod Rings
pub mod Missing
pub mod Init
pub mod Naming
pub mod Prepared
pub mod Started
pub mod Process
pub mod Rounds
pub mod FirstPackets
pub mod Boot
