-- ===== src/Views.antt =====
-- The index code of src/views: sorted lists, bitmaps, and the packed keys, values and reductions of
-- view B-trees, with their purgers.
pub mod SortedList
pub mod Packed
pub mod Keys
pub mod Collate
pub mod KeyCmp
pub mod Values
pub mod Bitmap
pub mod Reductions
pub mod Purgers
mod CollateTests
mod Tests
