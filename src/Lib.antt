-- ===== src/Lib.antt =====
-- XenonJS, a compiler from JavaScript to bytecode (compiler/) and a runtime for it (rts/).
--
-- The compiler reads a source by its lexer, parses it, goes over several intermediate forms, and
-- its last stage, the linker, makes instructions of the last form, writes the sections of a
-- bytecode file by bit writers, each a growable byte buffer, and merges them. The runtime loads
-- such a file, finds its sections, reads words and strings at offsets into it, and its virtual
-- machine fetches the instructions of the text section. Its values live in blocks of a memory
-- pool, which are known by their numbers, the urids, and are collected when nothing uses them.
--
-- Which file models which part:
--   Buffer    rts/src/xjr_mbuf.c and the same operations of compiler/src/xjs_bitwriter.c:
--             `init_conf`, `append`, `shift`, `clear`, with `xjr_memcpy` of rts/src/xjr_libc.c.
--             A buffer is a record of its fields; its block is a list of bytes, or NULL.
--   BitWriter compiler/src/xjs_bitwriter.c: `write_u32` and the other writers of values.
--   Xfile     rts/src/xjr_x.c: the readers of words and data items, and `xjr_xfile_load`.
--   Linker    compiler/src/xjs_c4.c and the xjs_c4_*sec.c beside it: the header, the data,
--             attribute, export, import and index sections, and the merge; `xjs_c4_start_ex`
--             is `Linker.File.start_ex`, of which the text and debug stages are parameters.
--   Text      compiler/src/xjs_c4_textsec_inst.c, xjs_c4_ant.c and xjs_c4_textsec.c: the
--             translation of the items of a function to instructions, the offsets of functions
--             and labels, the annotation, and the writer of the text section; `Text.Stage` is
--             the text stage of `Linker`, and `Text.Format` a table of the bytes of each
--             instruction. The register scheduler is a parameter of the stage.
--   Regalloc  compiler/src/xjs_c4_regalloc.c: the life intervals of variables and the R1
--             scheduler; `Regalloc.regsched_initialize` is that scheduler for `Text`.
--   Debug     compiler/src/xjs_c4_dbgsec.c: the debug sections, from the list of the offsets and
--             places of the instructions; `Debug.write_dbg0` is a debug stage for `Linker`.
--   Vm        rts/src/xjr_vm.c: how `xjr_vm_step` fetches an instruction and its operands.
--   Pool      rts/src/xjr_mp.c: the memory pool of the virtual machine, over the bytes of its sub
--             pools, and `xjr_gc` of rts/src/xjr_gc.c. `Pool.SubPools` has the operations of one
--             sub pool, `Pool.Pools` those of the pool; `Pool.Chain` says what a sub pool means, and
--             `Pool.Session` what the calls of a pool may do to its blocks.
--   Lexer     compiler/src/xjs_lexer.c, xjs_lexer_ctx.c, xjs_lexer_helper.h, xjs_token.c and the
--             string comparison of xjs_aux.c. The iterator is what is left of the source.
--   Crc       rts/src/crc32.c.
--   Base      the shared helpers: lists and tests on native numbers, results, laws of bits.
--   Tests     the theorems at concrete inputs.
--
-- A C function that may fail gives `ok` or `fail`, the latter with the state that it leaves; an
-- access outside of a block is `fault`. Behind the source of the lexer stands the terminator of
-- the string that holds it, a zero, which the lexer may look at and does not go over. The bits
-- of a word are natural numbers with the remainder by 2^8, 2^16, 2^32 or 2^64 written out; a
-- signed value and a double are given by their bits and bytes. The width of the size type of a
-- buffer is a parameter, 2^32 in the runtime and 2^64 in the compiler.
--
-- The loop of the lexer runs on fuel, one more than the characters of the source: each turn of
-- it takes one at least. The loops over the chain of a sub pool run on 4096, more than the
-- blocks that its 4096 bytes have room for. All other loops are structural.
--
-- Parameters: the allocator, which gives a block of the size asked for or NULL (in `Pool`:
-- whether the heap has memory), and the UTF-8 encoder of deps/ec, which is another project's
-- library; whether a double is whole, and which `int` it then is. A map of deps/ec is a list of
-- pairs, and a key that is missing is `fault`. A read of the table of the register scheduler
-- outside of it is a `fault` too; what the linker is then given there is a parameter, what the
-- memory holds. In the lexer and in the annotation of the text memory is taken to be there; the
-- text of a comment, which is thrown away, is left out, and so are the places of instructions
-- in the source, but for `Debug`.
--
-- Not modelled: the parser, the passes over the intermediate forms, the simple register scheduler,
-- which nothing calls, the execution of instructions, how the collector finds the blocks in use,
-- the compaction of the pool, which the machine switches off, its listing of blocks and its
-- recording of allocations, and the built-in objects; the printers, the command line programs, the
-- samples and the tests.
pub mod Base
pub mod Buffer
pub mod BitWriter
pub mod Xfile
pub mod Linker
pub mod Text
pub mod Regalloc
pub mod Debug
pub mod Vm
pub mod Pool
pub mod Lexer
pub mod Crc
mod Tests
