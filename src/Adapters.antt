-- ===== src/Adapters.antt =====
-- internal/adapters: the parts of the program that speak with other services.
pub mod Http
pub mod Alertmanager
pub mod Prometheus
pub mod Ai
pub mod Grafana
pub mod Notify
