-- ===== src/Tools.antt =====
-- The tools of users: their deployments on Kubernetes, and the helm commands that install them.
pub mod Deployment
pub mod Helm
pub mod Install
pub mod Charts
mod InstallTests
mod Tests
