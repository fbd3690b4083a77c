-- ===== src/Lib.antt =====
-- A model of GSC, an embeddable scripting language in C, with the theorems that make its parts
-- correct.
--
-- The program reads a script through a stream (stream.h, stream_buffer.h), cuts it into tokens
-- (lexer.h), parses and compiles it to instructions (parse.c, precedence.c, compiler.c), and runs
-- the instructions on cooperative threads that exchange events (vm.c). Memory comes from bump
-- arenas (arena.h) and pools of equal units (object_pool.h); names are interned (string_table.h) and
-- looked up in hash tries (hash_trie.h). `compile_file` of main.c puts the lexer, the parser, a walk of
-- the tree (traverse.c) and the compiler together.
--
--   Base: shared names, lists, byte strings, 64-bit words (Base.Word) and the results of calls that
--     can fail (Base.Result: a `vm_error`, or what C leaves undefined).
--   Trie: the 4-ary hash trie that string_table.h and hash_trie.h both walk. Trie.Find has the laws
--     of a walk, Trie.Index those of a trie over a list of keys.
--   Arena: arena.h. `allocate_memory` is `arena_allocate_memory_`, `split` is `arena_split`. The
--     arena keeps addresses only; the bytes belong to the component that allocates them.
--   StringTable: string_table.h, on an arena and a trie. `intern` is `string_table_intern`, `get` is
--     `string_table_get`. An entry is its index, and its `child` pointers are the trie.
--   HashTrie: hash_trie.h. `upsert` is `hash_trie_upsert`; a node is its place in the `next` chain.
--   ObjectPool: object_pool.h. The free list, linked through the units in the source, is a list.
--   Stream: stream_buffer.h and the calls of stream.h that the lexer makes.
--   Token, Lexer: lexer.h up to `lexer_step`. Lexer.Char has the conditions of a run, Lexer.Scan the
--     loops, Lexer.Keywords the table of hashes, Lexer.Step the `switch`. A loop takes as fuel one
--     more than the bytes of the stream, and each round reads one. The passes through `repeat` of `lexer_step` take their fuel as an argument;
--     each of them reads a byte too. Lexer.Run and Lexer.Word are about runs and words, Lexer.Forward,
--     Lexer.Loops, Lexer.Again, Lexer.Progress and Lexer.Passes about the lexer's offset.
--   Platform: the floating point operations and the conversions of the C library, a parameter.
--   Parser: parse.c and precedence.c, on the tokens that the lexer gives with their texts. A parse
--     is a function of the parser's state that gives a value and a state, or fails, or runs out
--     of fuel. Parser.Operators is the table of operators, Parser.Prefix and Parser.Infix its
--     functions (`nud_...`, `led_...`), Parser.Expression the loop over precedences,
--     Parser.Statement and Parser.Program the rest of the grammar, Parser.Source the
--     tokens of a text. The fuel of `parse` is one more than the tokens. The lexer is called at
--     most two times more than the text has bytes, as each call before the end reads one.
--     Parser.Whole is about the end of that list.
--   Parser.Ends: each part of the parser with fuel for the tokens that are left. Parser.Grammar:
--     a grammar of expressions by precedence, as inductive types, and its parses; thread calls,
--     calls through a file or a pointer and directives are not in it.
--   Traverse: traverse.c, with the callback as a function on a state.
--   CompiledFile: `compile_file` and `node_fn` of main.c.
--   Compiler: compiler.c. Compiler.Syntax has the nodes of ast.type.h, Compiler.Code the instructions of
--     instruction.h, Compiler.State the state and its actions. Each visitor takes the actions of its
--     children (Compiler.Handlers, Compiler.Switch, Compiler.Calls), and Compiler.Visit hands them over
--     by recursion on the tree. Compiler.Function is `compile_function` and `compile_node`.
--     Compiler.Sound has the invariant of the state, with a lemma for each visitor. The memory of the
--     compiler's arena is taken to be enough.
--   Vm.Variable, Vm.Value, Vm.Binop: the values of vm.c and their operators (`promote_type`,
--     `coerce_type`, `vm_stringify`, `unary`, `binop`). A string carries its bytes, and the unit that
--     `binop` takes from the pool for it is counted in the pool.
--   Vm.Ring: the ring of threads (`thread_count`, `add_thread`, `remove_thread`).
--   Vm.Event: `vm_notify_args`, and what a frame does with the events.
--   Vm.Scheduler: `vm_run_threads`, which runs the active threads with `run_thread`. Its loop takes
--     `thread_count` as the source does.
--   Vm.Machine, Vm.Stack, Vm.Instructions, Vm.Messages, Vm.Execute, Vm.Step: `run_thread` and the
--     instructions of `vm_execute_instruction` that stay within the frames of a thread. For the
--     other instructions the functions give `none`. `run_thread` takes the number of its rounds as fuel.
--   Tests: runs on concrete inputs.
--
-- Numbers are natural numbers. A 64-bit word is its bit pattern, and its operations wrap; sizes,
-- offsets and addresses are below 2 ^ 63, so their sums do not wrap; the product of a read or a write
-- of a stream does. A call that ends in `vm_error`,
-- `longjmp` or `abort` is a value. A read or write that C leaves undefined is a value too where a
-- caller can reach it.
--
-- Not modelled: accept and expect of the lexer, visitor.c, which prints, the calls and the objects of
-- vm.c, the API (include/gsc.h, library.c) and the host programs (examples). Printing, error text and
-- line numbers are left out.
pub mod Base
pub mod Trie
pub mod Arena
pub mod StringTable
pub mod HashTrie
pub mod ObjectPool
pub mod Stream
pub mod Token
pub mod Lexer
pub mod Platform
pub mod Parser
pub mod Compiler
pub mod Traverse
pub mod CompiledFile
pub mod Vm
pub mod Tests
