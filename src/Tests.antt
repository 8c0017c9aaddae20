-- ===== src/Tests.antt =====
-- Each theorem of the results at a concrete input.
mod Panes
mod Tab
mod Store
mod Watch
mod Keys
mod Tree
mod Stream
