-- ===== src/Messages.antt =====
-- baileys/src/messages: the table of sends and the sending of one message.
pub mod Repository
pub mod Send
