-- ===== src/Tests.antt =====
-- Tests on concrete inputs, and the theorems applied where their hypotheses hold.
mod Floats
mod Util
mod Idle
mod Controller
mod ScaleOut
mod Upgrade
mod Auth
mod Webhook
mod Ha
mod JobMarkers
mod Restart
mod Cron
mod RateLimit
