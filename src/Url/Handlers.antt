-- ===== src/Url/Handlers.antt =====
-- a.yanin/waxy/src/url.c: the handlers of the parser's states, one function for each.
-- A handler answers with the new state and with the error that it returns.
pub mod Scheme
pub mod Authority
pub mod Files
pub mod Paths
