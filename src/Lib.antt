-- ===== src/Lib.antt =====
-- A verification library for parts of ScriptBasic, a BASIC interpreter in C.
--
-- What is modelled, by file:
-- - Common, with its children: Boolean tests, lists and integers over native numbers.
-- - Memory: the interface Allocator, a record of the two functions through which hndlptr.c, sym.c,
--   options.c and memory.c reach the memory segments of myalloc.c. It is a parameter of their operations, and nothing is
--   assumed of it but its types, so that it may fail at any call.
--   Memory/Counting is one to run the tests with.
-- - Links: lists linked in both directions, as myalloc.c and memory.c have them: the relation Chain
--   between links and the list of the addresses they lead through.
-- - Segment: myalloc.c, in the build without threads and without debugging, over the system's malloc
--   and free, which are an Allocator again. alloc_Alloc is segment_alloc, alloc_Free segment_free,
--   alloc_Merge merge, and so on; segment_allocator is a segment as the Allocator of other parts. The
--   loops along the pieces of a segment run on a number of rounds; more rounds than pieces are enough.
-- - Variables: memory.c, the variables of a BASIC program, over a segment, which is an Allocator. The
--   record Variables holds the structure MemoryObject and what its pointers lead to. Objects has
--   memory_NewVariable, new_variable here, Create the functions that make variables with it; Release has
--   memory_ReleaseVariable, with references to a variable and arrays; Mortal the mortal lists; Copy
--   memory_DupVar, memory_DupImmortal and memory_DupMortalize; Arrays memory_NewArray and
--   memory_ReDimArray; References memory_SetRef and memory_ReplaceVariable; CopyArray memory_CopyArray.
--   A mortal list is its first variable, which is handed on. The loops over references and mortal variables, and the recursion into arrays,
--   run on a number of rounds. The other files have the proofs.
-- - Handle: hndlptr.c, the arrays that turn an extension module's pointers into small integers.
--   handle_GetHandle is get_handle, handle_GetPointer get_pointer, handle_FreeHandle free_handle,
--   handle_DestroyHandleArray destroy_handle_array. The state is the record HandleArray. The mutex is
--   a flag; a call that would wait for ever has the result `none`.
-- - Sym: sym.c, the symbol tables. sym_NewSymbolTable is new_symbol_table, sym_LookupSymbol
--   lookup_symbol, sym_DeleteSymbol delete_symbol, and so on. A bucket is a Tree of Symbols; `released`
--   is a pointer to memory that was given back, and an operation that would read it has the result
--   `none`. The pointer to the place where a loop stops is rendered by two functions: `find` reads
--   there, and `hook` writes there.
-- - Options: options.c, the options of a program on top of a symbol table: options_Set is set_option,
--   options_Get get_option, options_GetR get_reference, options_Reset reset_option. Options/Value
--   writes the pointer that a symbol's entry is.
-- - SharedLock: the shareable lock of thread.c, as a step relation (Move for one thread, Step for a
--   system) in which every locking, unlocking, reading and writing is a step of its own, but for the `++`
--   and `--` of the counter, which are one each: the counter's mutex is held there. Waiting is a step
--   that is not enabled. The counter has 32 bits and wraps around.
-- - GmTime: mygmtime.c. `long` and `time_t` have 64 bits; no sum of the modelled calls on `int` fields
--   leaves their range, so that they are integers here, with the source's tests for overflow. The
--   casts to `int` of mygmtime keep 32 bits; GmTime/Range says what it computes where they lose
--   nothing.
-- - Match: match.c. Match/Sets has the sets of characters, Match/Default the default ones and
--   match_InitSets, Match/Modify match_ModifySet, Match/Matcher match_match, Match/Count match_count,
--   Match/Format match_parameter and match_size. What a pattern means is said in Match/Meaning in
--   the documentation's words, and what a format string stands for in Match/Words, by the way it is
--   written; Match/Pattern and Match/Expansion stand between them and the loops. An `int` has 32
--   bits.
--   A string is the list of its bytes; match_match also reads the bytes after the
--   pattern, which are the parameter `beyond`. Its loops run on fuel, twice the string's length and
--   one, since every round takes a character of the string; the loops of match_parameter and
--   match_size, whose rounds take a character of the format, run on the format's length.
-- - ConfigTree: conftree.c, the configuration in memory and its file. tConfigTree is the record
--   ConfigTree with the nodes and the string table that its pointers stand for; cft_FindNode is
--   find_node, cft_GetEx get_ex, cft_GetString get_string, cft_EnumFirst enum_first, cft_ReadConfig
--   read_config, cft_WriteConfig write_config, cft_start start_config. ConfigTree/Forest has the tree
--   of keys that the packed nodes stand for. A node is looked at once on the way down, so that the
--   size of that tree and one is fuel enough; nodes that form a cycle keep the loop for ever, as they
--   do in C.
-- - Compile: confpile.c, the compiler of a configuration's text form, on the LISP list that the reader
--   makes of the file: cft_ReadTextConfig is read_text_config, RemoveNil remove_nil, CountSubTree
--   count_sub_tree, BuildSubTree build_sub_tree. The two tables are lists of what is written so far, so
--   that the next indices are their lengths. All loops are structural recursion on the list.
--   Compile/Frame says what a call leaves of the tables that it is given, Compile/Stands which tree of
--   ConfigTree/Forest the nodes stand for.
-- - Lexer: lexer.c. lex_ReadInput is read_input in Lexer/Read, whose parts are Lexer/Symbols,
--   Lexer/Numbers and Lexer/Strings; the three passes over the lexemes are in Lexer/Filter, the
--   iteration in Lexer/Iterate, lex_InitStructure in Lexer. The input and the characters that were
--   given back are one list, and EOF is a character that may be in it. `double` arithmetic is the
--   parameter Doubles. The loop of lex_ReadInput has a unit of fuel for each lexeme, the loop of a
--   string one for each character that is left. There is no preprocessor and always memory.
--   Lexer/Print writes tokens as a program has them.
-- Each part has a module Examples with tests at concrete inputs.
--
-- The operating system's threads and mutexes, and the C library's functions on characters (in the C
-- locale) and on files are modelled by what the source uses of them. Not modelled: the rest of the
-- interpreter (syntax analysis, builder, execution, commands), the reader
-- of LISP lists, and the extension modules.
pub mod Common
pub mod Memory
pub mod Links
pub mod Segment
pub mod Variables
pub mod Handle
pub mod Sym
pub mod Options
pub mod SharedLock
pub mod GmTime
pub mod Match
pub mod ConfigTree
pub mod Compile
pub mod Lexer
