-- ===== src/Auth0.antt =====
-- controlpanel/api/auth0.py: reading all pages of a resource, and the connections of a client.
pub mod Paging
pub mod Connections
mod Tests
