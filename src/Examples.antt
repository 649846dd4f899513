-- ===== src/Examples.antt =====
-- Concrete requests, and the theorems applied to them.
mod Setup
mod Tokens
mod Access
mod Cache
mod Pages
mod Texts
mod Imports
mod Reaping
