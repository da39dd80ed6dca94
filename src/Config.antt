-- ===== src/Config.antt =====
-- config/config.go, cmd/srv/main.go and cmd/srv/init.go: flags, the configuration file, and the
-- authentication provider they choose.
pub mod Settings
pub mod Choice
