-- ===== src/Page.antt =====
-- The views of the page (public/static/js/app.js), by what they keep and show; what draws them is
-- left out.
pub mod Logs
pub mod Activity
pub mod Table
pub mod Metrics
pub mod Login
