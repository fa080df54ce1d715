-- ===== src/Auth.antt =====
-- Authentication: the service (src/services/auth.service.ts), the TOTP service
-- (src/services/totp.service.ts) and the controller (src/controllers/auth.controller.ts).
pub mod Service
pub mod Controller
pub mod Login
pub mod Answers
pub mod Greetings
pub mod Frames
pub mod Reach
