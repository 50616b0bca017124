-- ===== src/Tests.antt =====
-- The model at concrete inputs, and instances of its interfaces: each theorem of the development that
-- has hypotheses is applied where they hold.
mod Value
mod Books
mod Feed
mod Consoles
mod Ids
mod Handler
mod Mirrors
mod Pipelines
mod Requests
mod Service
mod Sockets
mod Markets
mod Mutexes
mod Messages
mod Trades
mod Whole
