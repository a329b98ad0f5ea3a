-- ===== src/Book.antt =====
-- include/crossbook/book.hpp: the L2 book over either side container.
pub mod Ladder
pub mod Visit
pub mod Map
pub mod Array
pub mod L2
