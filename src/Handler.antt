-- ===== src/Handler.antt =====
-- internal/adapter/handler: the handlers that carry rules of their own. An answer is an HTTP status;
-- the decoding of requests and the bodies of the answers are left out.
pub mod Checkout
pub mod Methods
pub mod Tests
pub mod Webhook
pub mod Duplicates
