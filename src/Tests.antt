-- ===== src/Tests.antt =====
-- Runs at concrete inputs, on which the theorems apply.
mod Demo
mod Parts
mod Tokens
mod Requests
mod Wallet
mod Backends
mod Exchange
mod Points
mod Database
mod Login
mod Server
mod Started
mod Registration
