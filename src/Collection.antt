-- ===== src/Collection.antt =====
-- utils/collection (toolkit/collection is the same text): searches, tests and filters over slices
-- and maps. A slice is a list; a map is the list of its entries, each key once, in the order in
-- which a range loop happens to visit them.
pub mod Loops
pub mod Contains
pub mod Duplicate
pub mod Find
pub mod Filter
mod Tests
