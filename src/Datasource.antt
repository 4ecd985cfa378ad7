-- ===== src/Datasource.antt =====
-- app/datasource: the failures of the provider, and the probe of what a binding can do.
pub mod Capability
pub mod Errors
