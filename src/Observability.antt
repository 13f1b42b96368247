-- ===== src/Observability.antt =====
-- backend/src/observability: `LokiSink` ships log lines in batches (lokiSink.js) and says which lines are
-- written at all (logger.js). The gauges of backlog.js stand in `Api/Ops`.
pub mod LokiSink
