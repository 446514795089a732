-- ===== src/Bitmap.antt =====
-- bitmap.go: bit sets of any size. A bitmap below 2^63 is its own bits; one with the top bit set is
-- the complement of an index into the pool of all larger bitmaps.
pub mod Store
pub mod Update
pub mod Combine
pub mod Recycle
pub mod Walk
pub mod Vector
