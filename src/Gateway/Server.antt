-- ===== src/Gateway/Server.antt =====
-- gateway/internal/server: the delivery listener and the metrics listener.
pub mod Http
pub mod Body
pub mod BodyLaws
pub mod Handler
pub mod EtagLaws
pub mod HandlerLaws
pub mod Secrecy
pub mod Metrics
pub mod MetricsLaws
pub mod Serve
pub mod ServeLaws
pub mod Tls
