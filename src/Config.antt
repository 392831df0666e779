-- ===== src/Config.antt =====
-- src/fcgi_config.cc and src/fcgi_config.h: the configuration of the plugin, and how it is read from
-- two files, the plugin's own and the parameter file that it may name.
pub mod Keys
pub mod Line
pub mod Matching
pub mod Layout
pub mod Words
pub mod Rendered
pub mod Settings
pub mod Access
pub mod Init
pub mod Reading
pub mod Stored
