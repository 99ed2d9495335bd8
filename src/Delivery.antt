-- ===== src/Delivery.antt =====
-- What js/src/createMessage.ts makes of content, on its way through createBlobFromMessage.ts,
-- parseMessageFromBlob.ts and createDecoder.ts to the other side.
pub mod Sendable
pub mod Content
mod Tests
