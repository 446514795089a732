-- ===== src/Lib.antt =====
-- elib: data structures of the elib package (Go): machine words as bit sets, growing vectors, pools of
-- indices, bitmaps, and what is built on them: heaps, tables, logs, a parser, buffers of packets and files,
-- and queues of events.
--
-- Word: the operators of Go's unsigned 64-bit integers, with their wrap-around, and their digits.
-- Bits: bits.go. `Word` is taken as 64 bits wide. ForeachSetBit takes 65 rounds of fuel: a round
--   clears one bit, so 64 rounds and the last test suffice.
-- Cap: cap.go. The products of a float64 constant and a capacity are the parameter FloatScale.
-- Vec: vec.tmpl, that is every gentemplate_vec_*.go. A slice is its elements and its spare capacity,
--   so that what is cut off can come back. `validate` is the method of that name, `validate_index`
--   is Validate.
-- Pool: pool.go, pool.tmpl and gentemplate_pool_string.go. The bitmap of free indices is behind the
--   interface FreeBits.
-- Bitmap: bitmap.go with gentemplate_pool_bitmap.go, on the pool `Bitmaps`. Store is the state and
--   toMem; Update is Get, Set2, Unset2, Invert2 and Orx; Combine is Or, AndNot and AndNotx; Recycle is
--   GetIndex, PutIndex, Dup and Free; Walk is ForeachSetBit and Next; Vector is BitmapVec. The free
--   slots of the pool are themselves a bitmap of the pool, so that taking a slot can take another: a
--   record Level holds the calls one level down, and `level n` nests them `n` deep. A pool with fewer
--   than 63 slots never nests, as its free bitmap is inline. What Go leaves open, the capacity after
--   `append`, is the parameter `extra`.
-- Heap: heap.go. The root file is the elements and the lists of free ones, Put is Put, Get is Get and
--   GetAligned, Usage is GetUsage.
-- Sparse: sparse.go. An int32 count is its 32 bits.
-- FibHeap: fibheap.go. Delete is Del and Update, Min is Min; the loops that follow links take fuel, by
--   the number of nodes in Del and Min and given by the caller in Merge.
-- TypedPool: typed_pool.go, over the interface FreeBits.
-- MemHeap: mem_heap.go on the Heap, with the mapping of memory as a parameter.
-- Dep: dep/dep.go. Linked and Collect are the two parts of sort before sort.Sort, Visit is orderHelper and
--   Order the order that is left. A search takes as fuel one more than the number of hooks, which an order
--   without cycles does not use up. Inline has the bitmaps of up to 63 hooks, as inline words of bitmap.go, and
--   Visited is Next on them;
--   bitmaps in the pool, which further hooks need, are not modelled here.
-- Buf: hw/buf.go. Headers is RefHeader; Walks is ChainLen, ChainSlice and validateTotalLen; Append is
--   RefChain; Links is LinkRefs; Pools is templates and sizes; States is the states of buffers; Free is
--   FreeRefs and Alloc is AllocRefs. A walk along a chain takes as fuel the number of its references.
-- FileBuf: iomux/filebuf.go, on Vec. Buffers is what a call does to the bytes; Queue runs the calls of a file one after the other, with what the system
--   returns to each; Drain is WriteReady again and again.
-- Event: event/event.go, on Pool and FibHeap. The bitmap of free indices is behind FreeBits. A loop of
--   advance takes as fuel one more than the length of the pool.
-- Mctree: mctree/pair.go, on Hash and Pool, and of mctree/mctree.go the division of the pairs of a leaf in
--   split and join, in Split. A hash of a leaf is the test of whether an index is free in it. Keys of
--   more than two pairs are hashed by a parameter.
-- Hash: hash.go. The client of a table, which keeps the keys, is the interface Client, and its state
--   goes through the calls. Mix is the hash state; Search is Get and the walks; Update is Set, Unset,
--   growth and Init. Set takes fuel for the tables that it grows.
-- Elog: elog/elog.go. A call that spins while the buffer is locked is one attempt, which may give
--   nothing. Ring has the invariant, View is NewView, History is events added in sequence. Encoding is
--   elog/encoding.go: views as bytes, with PutUvarint and Uvarint of the package encoding/binary; that
--   views take less than 2^29 bytes is supposed. Marshal is MarshalBinary, with the bitmap of types on
--   Bitmap; Views is both ways.
-- Mem: mem.go, PointerPoison only; memory is a function from an offset to a byte.
-- Parse: parse/parse.go and parse/builtins.go. A reader is the list of what its reads return; a Parser
--   is a function from the input to a value or a panic, with the input that is left. Utf8 has what is
--   used of the packages unicode and utf8; Scan is runes, spaces and tokens; Numbers is parseInt and
--   ParseFloat, with the powers of ten as a parameter; Strings is parseString; Format is Parse and
--   doPercent, which returns the values that Go writes through the arguments. The fuel of a loop is
--   the bytes in the buffer and in the reads to come: a round passes a byte or makes a read.
-- Tests: runs of the model, and the theorems at concrete inputs.
--
-- A Go panic is a value of Outcome. Not modelled: text output (String, HexString, tabulate.go), memory
-- mapping, devices, sockets, terminals, the code generator and the packet loop; of
-- mctree the counts of references, the costs in floating point and the trees.
pub mod Base
pub mod Bitmap
pub mod Bits
pub mod Buf
pub mod Cap
pub mod Dep
pub mod Elog
pub mod Event
pub mod FibHeap
pub mod FileBuf
pub mod Hash
pub mod Heap
pub mod Mctree
pub mod Mem
pub mod MemHeap
pub mod Parse
pub mod Pool
pub mod Sparse
pub mod Tests
pub mod TypedPool
pub mod Vec
pub mod Word
