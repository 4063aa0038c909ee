-- ===== src/Lib.antt =====
-- A model of unlzx, which lists and extracts the archives of the Amiga program LZX, with the
-- theorems that make its decoder, its lists of members and its command correct.
--
-- The command (src/unlzx_main.cc) opens an archive by `Unlzx` (src/unlzx.cc). It maps the file as an
-- `InputBuffer` (src/mmap_buffer.cc), reads member headers from it (`lzx::Entry::from_buffer`,
-- src/lzx_handle.cc), whose checksums are `crc::Crc32` (src/crc.cc), and hands the packed data of
-- one or more merged members to an `LzxBlock` (src/lzx_block.cc). Each member is an `LzxEntry` whose
-- segments are parts of such blocks (src/lzx_entry.cc), collected by an `LzxEntryBuilder`
-- (src/lzx_entry_builder.cc). The command filters the entries by name, and lists or extracts them. A
-- block is decompressed once, by a `huffman::HuffmanDecoder` (src/huffman_decoder.cc), which in
-- turn reads code lengths and literals (`read_literal_table`), fills three tables
-- (`huffman::HuffmanTable`, src/huffman_table.cc), and decodes symbols into bytes and matches
-- (`decrunch`).
--
-- The files:
-- - Base and its children: numbers, words, bits, lists and octets.
-- - Status, Exec: the enum `Status` of src/error.hh, and the methods. A method is a function from
--   the state to an `Outcome`: `done` for Status::Ok, `fail` for any other status, each with the
--   state that is left; `TRY` is the bind. `fault` is an access outside an array, which C++ leaves
--   undefined, or an exception that nothing catches; `exhausted` is a loop of the model that ran
--   out of fuel. Exec/Ensures and Exec/Relate are the rules for postconditions, Exec/Honest those
--   for the status of a failure.
-- - Input: `InputBuffer`, one function per method. Input/Stream gives the view of a reader of bits:
--   one number whose lowest bits come first.
-- - Types: `Value` of src/types.hh, a `uint32_t` in the memory of a packed structure, on a
--   little-endian host.
-- - Crc: `Crc32`, with its table computed as the source computes it.
-- - Handle: `lzx::Entry` as the 31 bytes of its structure with the two strings, the getters, and
--   `from_buffer`; `DateStamp` by its raw value. Handle/Format has the formatters.
-- - Table: `HuffmanTable` and the two passes of `reset_table`. Table/Slots has the canonical code
--   that the lengths mean.
-- - Decoder: `HuffmanDecoder`; Decoder/LiteralTable is `read_literal_table`, Decoder/Decrunch is
--   `decrunch`, with the caller's `target` and `pos` in its state.
-- - Block: `LzxBlock`, whose `data()` is `block_data`. The span is modelled by the bytes it shows.
--   Block/Life follows a block from call to call.
-- - Text: what is printed, as the literal parts of a format and its arguments.
-- - File: `LzxFileSegment`, `LzxEntry` and `LzxEntryBuilder`. The blocks that segments share stand in
--   a list, and a pointer to one is its place there.
--   File/Broken is what asking segments for their data may come to.
-- - Mapped: `MmapInputBuffer`, its POSIX branch. Mapped/Memory is a system with one file.
-- - Archive: `list_archive` of `Unlzx`, whose maps are ordered dictionaries (Base/Dict). Archive/Plan
--   says, of the members alone, what entries and blocks there are to be; Archive/Refines
--   compares the two; Archive/Bounds and Archive/Tiles are about the segments and their blocks.
--   Archive/Open is `open_archive`.
-- - Command: Command/Filter is `FilteredEntries`, whose choice Command/Filter/Select says of the
--   names alone, Command/Show `handle_list` and `handle_view`,
--   Command/Extract `handle_extract`, and Command/Main `main`.
-- Tests modules hold the expectations of the program's own tests, small runs, and the theorems at
-- concrete inputs.
--
-- Numbers are natural numbers, with the wrap-around of 8, 16, 32 and 64 bits written out where the
-- source's types have it. Bounded loops are structural recursion. Six loops have fuel: `follow`
-- gets more than the bits that are left, as each of its rounds takes one; `decrunch` gets one round
-- more than the threshold, as each of its rounds moves `pos`; the loop over the lengths in
-- `read_literal_table` one round more than there are lengths, as each sets one; that of `data()` a
-- round for each bit of the source and each byte of the target, as each takes or makes one; that of
-- `list_archive` one for each byte, as each round reads a header; and the loop over a filter one
-- more than there are entries. The theorems on the last five say that the fuel is enough. Archives
-- are taken to be shorter than 2 ^ 35 bytes where offsets into a merged block must not wrap at 64
-- bits: a member takes at least 31 bytes of the archive and adds less than 2 ^ 32 to the offset.
--
-- Parameters: the calls of the operating system (`Os`, with laws in Mapped/Handles), the library's
-- files (`Files`, with laws in Command/Extract/Writes), its regular expressions (`Regexes`), and
-- `getopt`. A path is its bytes, split at slashes.
--
-- Not modelled: the branches for Windows, and what `std::print` makes of its arguments, such as the
-- padding of columns. An exception ends a run as an undefined access does;
-- Command/Main/Stops says where one may come from.
pub mod Base
pub mod Status
pub mod Exec
pub mod Input
pub mod Types
pub mod Crc
pub mod Text
pub mod Handle
pub mod Table
pub mod Decoder
pub mod Block
pub mod File
pub mod Mapped
pub mod Archive
pub mod Command
