-- ===== src/Url.antt =====
-- a.yanin/waxy/src/url.c: the URL parser.
pub mod Chars
pub mod Percent
pub mod State
pub mod Handlers
pub mod Input
pub mod Parse
pub mod Loop
pub mod Progress
pub mod Termination
pub mod Bounds
pub mod Failure
pub mod Scheme
pub mod Remaining
pub mod Compare
pub mod Copy
pub mod Tests
