-- ===== src/Apps.antt =====
-- The apps of the control panel: their secrets and variables on GitHub, their settings for Auth0, and the
-- inline policies of their roles.
pub mod Settings
pub mod CloudPlatform
pub mod AuthSettings
