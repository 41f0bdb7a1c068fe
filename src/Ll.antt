-- ===== src/Ll.antt =====
-- src/arcache/ll.rs: the doubly linked lists.
pub mod Order
pub mod Laws
