-- ===== src/Tests.antt =====
-- Runs of the model at concrete inputs, and the theorems at inputs that meet their hypotheses.
mod Access
mod Store
mod Requests
mod Startup
mod Paths
mod Tree
mod Share
mod Upstream
mod Dav
mod Objects
mod Web
mod Launch
