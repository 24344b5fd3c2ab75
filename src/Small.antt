-- ===== src/Small.antt =====
-- The small C++ programs of cpp: memory, words of a text, redirected output, a window and a directory.
pub mod Heap
pub mod Matrix
pub mod Words
pub mod Redirect
pub mod Window
pub mod Listing
pub mod Pointers
pub mod Arrays
