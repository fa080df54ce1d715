-- ===== src/Pm2.antt =====
-- The gateway to the PM2 daemon: src/services/pm2.service.ts.
pub mod Normalise
pub mod Service
pub mod Laws
pub mod Calls
pub mod Connection
pub mod Bus
