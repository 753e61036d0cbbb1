-- ===== src/Sessions.antt =====
-- baileys/src/sessions: the table of sessions, the events, and the manager of the live sockets.
pub mod Repository
pub mod Events
pub mod State
pub mod Manager
pub mod MessageEvents
