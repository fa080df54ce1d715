-- ===== src/Page/Login/Progress.antt =====
-- That the login page leads on with the right password (public/static/js/login.js,
-- src/controllers/auth.controller.ts).
use pm2manager.World.{World}
