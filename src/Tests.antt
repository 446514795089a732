-- ===== src/Tests.antt =====
-- Concrete runs of the model, and each theorem at an input that meets its conditions.
mod Scale
mod Words
mod Indices
mod Roots
mod Vectors
mod Pools
mod Bitmap
mod Blocks
mod Scanner
mod Tables
mod Logs
mod Encodings
mod Memories
mod Hooks
mod Buffers
mod Files
mod Trees
