-- ===== src/Sockets.antt =====
-- websocket/: the connections that stay open for the metrics, the logs and the terminal of a container.
--
-- The upgrade of a connection, JSON and Docker's framing of its streams (`stdcopy`) are libraries: a
-- handler's loop runs on the list of what they hand over. Closing a connection is not modelled.
pub mod Upgrade
pub mod Logs
pub mod Metrics
pub mod Terminal
