-- ===== src/Deploy.antt =====
-- internal/deploy: bulk agent installation over SSH.
pub mod Shell
pub mod Commands
pub mod HostKeys
pub mod Address
pub mod Targets
pub mod Dial
pub mod Hosts
pub mod Start
pub mod Run
pub mod Work
pub mod Whole
