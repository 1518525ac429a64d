-- ===== src/Tests.antt =====
-- The theorems at concrete inputs, over a small implementation of the libraries.
mod Headers
mod Sample
mod Globs
mod Rules
mod Proxies
mod Programs
mod Certificates
mod Cookies
mod Trust
mod Serving
mod Commands
mod Caches
