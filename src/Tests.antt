-- ===== src/Tests.antt =====
-- Concrete databases and requests, and each property at one of them.
mod Sample
mod Articles
mod Requests
mod Choices
mod Handlers
mod Categories
mod Fetching
