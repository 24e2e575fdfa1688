-- ===== src/Lib.antt =====
-- Verification of llguidance, a library that constrains the output of a language model to a
-- grammar, token by token.
--
-- The program. The crate toktrie holds the vocabulary as a prefix tree (`TokTrie`,
-- toktrie/src/toktree.rs), sets of tokens as bit vectors (`SimpleVob`, toktrie/src/svob.rs) and the
-- interface `Recognizer`, through which a parser says byte by byte what may come next
-- (toktrie/src/toktree.rs, toktrie/src/recognizer.rs). `TokTrie::add_bias` walks the tree under a
-- recognizer and collects the tokens that it allows; the crate parser (parser/src) implements
-- recognizers by an Earley parser over grammars, and calls that walk for every mask.
--
-- The files.
--   Prelude: lists, tests, partial code (`none` is a panic), bits and `u32` words.
--   Svob: toktrie/src/svob.rs. The record is in Svob.antt (its field `data` is `words`) with the
--     methods that allocate, read and write; Svob/Algebra holds the word-wise operations, Svob/Scan
--     the iterations and searches. Svob/View reads a vector as a set. A method of the source named
--     `set` is `set_bit` here.
--   Recognizer: the trait as a record of operations, with its contract (a stack of bytes), and the
--     implementations `StackRecognizer`, `FixedRecognizer` and `AnythingGoes`.
--   Trie: toktrie/src/toktree.rs. Trie/Node is the packed `TrieNode`; Trie/Build is
--     `TrieBuilder`, which inserts words and serializes the tree; Trie/From builds, filters and
--     validates a `TokTrie` (the sort of its words is an argument), and Trie/Check compares one
--     with its tokens; Trie/Forest is the tree as a data type and how it lies in the
--     flat nodes; Trie/Walk is `add_bias`, Trie/Chop `has_valid_extensions` and `chop_tokens`;
--     Trie/Search holds the searches by bytes and greedy tokenization, Trie/Decode the decoding of
--     tokens, Trie/Special the tokenization of text with special tokens (with
--     toktrie/src/tokenv.rs), Trie/Approximate `ApproximateTokEnv`. References to nodes are
--     offsets; the method `token_id` of a trie is `token_id_of_bytes`.
--   Bytes: toktrie/src/bytes.rs, little-endian words (Bytes/Words) and hexadecimal text.
--   HashCons: parser/src/hashcons.rs. Stop: parser/src/stop_controller.rs.
--   Session: the token level of the crate parser. Session.antt has the errors, methods that mutate a
--     state and may fail, and the Earley parser as a record of operations (`Parser`);
--     Session/TokenParser, Session/Consume and Session/Force are parser/src/tokenparser.rs (its
--     state, stops and rollback; the consumption of tokens; forced tokens, masks and prompts),
--     Session/Matcher is parser/src/matcher.rs, Session/Constraint parser/src/constraint.rs with
--     `Branch`, `Splice` and `save_tokens` of toktrie/src/lib.rs. Methods of the matcher whose name
--     the token parser has, too, end in `_matcher`, those of the constraint in `_constraint`.
--     Session/Keeps says which methods leave the tokens alone, Session/Sample is a small session
--     for the tests.
--   Json: parser/src/json. Json/Regex is the syntax of the regular expressions that numeric.rs
--     writes, with their text (`written`) and the strings that they match, Json/Regex/Reads is how such
--     a text is read, with a bar that reaches as far as its group; Json/Numeric is
--     `rx_int_range` of parser/src/json/numeric.rs, with a function for each form of its two bounds
--     (`rx_bounded` and `rx_range`, `rx_from`, `rx_negative`). The strings `lpref` and `lx` of the
--     source are the digits of the bound but the last one, and the last one. Json/Decimal is `Decimal`
--     of that file.
-- The stop controller reads the bytes of its tokens from the trie, and its automaton is a record of
-- operations, as are the conversions of bytes to a `String`; tokenizers of plain text are functions
-- that the definitions take.
--
-- Numbers. `usize` is ℕ, with underflow as a panic where the source subtracts; `u32` casts are
-- written out as remainders by 2 ^ 32, and words are kept below 2 ^ 32 by the validity predicates.
-- Token ids and bit indices fit `u32` as a part of validity. An `i64` is a constructor for its sign
-- with a natural number; arithmetic on `u32` that overflows in `Decimal` is `none`, like a panic.
--
-- Fuel. The walk over the nodes takes as much fuel as there are nodes, since each round moves on by
-- one node at least; the search among children takes one round more than there are nodes. Loops
-- over a string of bytes take its length, since each round takes a byte. The builder's lists of
-- siblings and its depth are bounded by the number of its nodes, and validation takes two calls per
-- node at most. The recursion on two numeric bounds takes as much fuel as the right one and the
-- distance of the two, since a call lowers their sum; Euclid's algorithm takes a call more than its
-- second number, which every call lowers.
--
-- Not modelled: of the crate parser the grammars, lexers, the Earley parser (the token parser takes
-- it as a parameter) and the schema compiler but for the ranges of integers and the decimals; of
-- the token parser the statistics, the log, temperatures, captures and the texts of errors; the
-- adapters for third-party tokenizers, the bindings and the command line tools; in the crate
-- toktrie debug printing, statistics, and what works on floats.
pub mod Prelude
pub mod Svob
pub mod Recognizer
pub mod Trie
pub mod HashCons
pub mod Bytes
pub mod Stop
pub mod Json
pub mod Session
