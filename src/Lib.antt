-- ===== src/Lib.antt =====
-- iksemel is an XML parser and a client library for Jabber. A client feeds bytes to the SAX
-- parser (src/sax.c), which calls hooks with tags and text; its parts allocate from the memory
-- stacks of src/ikstack.c; text is escaped and unescaped by src/utility.c, SASL answers go
-- through src/base64.c, and packets are given to the hooks of matching rules by src/filter.c.
-- The DOM parser (src/dom.c) builds the document tree (src/iks.c) from these calls, and
-- `iks_string` writes a tree as text. Identifiers of users are split by src/jabber.c. A stream
-- (src/stream.c) is a parser whose hooks build the stanzas of a connection and hand them to the
-- client; it sends trees as text, goes over to TLS, and answers SASL challenges with the hashes
-- and codes of src/md5.c and src/base64.c.
--
-- Sax models src/sax.c. Sax.Types has `struct iksparser_struct`, the hooks and how a call ends:
-- a result, an error code with the parser as it stands, a read or write out of bounds, or fuel
-- used up. Sax.Token has the token stack (`stack_init`, `stack_expand`, STACK_PUSH,
-- STACK_PUSH_END) and the attribute array, Sax.Core one function for each case of the switch of
-- `sax_core` and the loop, Sax.Parse `iks_parse` and `iks_parser_reset`. Pointers into the
-- token stack are offsets from its start. The allocator is a function that says whether a
-- request of a size succeeds, and the hooks are functions on the user data. The loop runs on
-- fuel of four for each byte: a byte is looked at again at most three times. Sax.Valid has the
-- invariant, and Sax.Safe the proofs, one lemma for each context.
--
-- Utility.Escape models `iks_escape` and `iks_unescape` of src/utility.c, Utility.Strings its
-- NULL-safe functions, Utility.Memory the wrapper of the allocator, Base64 models src/base64.c,
-- and Filter the rules, the scores and the dispatch of src/filter.c. Filter.Links models the
-- removal of rules on the doubly linked list in memory, where a touch of a freed rule ends the
-- run; a loop over the list there has fuel, and one unit a rule is enough. Filter calls hooks
-- as functions on a state of the client's, which are taken not to change the filter while it
-- runs; its second loop has fuel for one call a rule and one more, and clears the score of the
-- rule that it calls, so this is enough.
--
-- Sha models src/sha.c: the loop that pads has fuel 64, which reaches the 56th byte of a block
-- from anywhere. Sha.Spec is SHA-1 of a whole message, with its own constants, functions and
-- rounds, and Sha.Rounds shows that the macros of the code are these rounds.
--
-- Md5 models src/md5.c with an `unsigned long` of 64 bits; its loop takes at least one byte a
-- round, and has the number of the bytes for fuel. Jabber models src/jabber.c over the commands
-- of Iks.Heap: Jabber.Id has the parts of `iks_id_new` where the stack has room, and
-- `iks_id_cmp`, Jabber.Ask `iks_id_new` with its requests for memory, Jabber.Packet
-- `iks_packet`, Jabber.Make the makers of stanzas, and Jabber.Features `iks_stream_features`.
--
-- Iks models the document tree, src/iks.c. Iks.Heap has the nodes (IKS_COMMON, `struct
-- iks_tag`, `struct iks_cdata`, `struct iks_attrib`) at addresses, and commands that read and
-- write them: a read through NULL, of freed memory or of another struct is a fault. Each
-- request for memory has a number, which is the address of what it gives, and the heap says
-- whether it is granted. A string is held by value, and a stack is a number. Iks.Create has the
-- operations from `iks_new` to `iks_delete`, Iks.Move and Iks.Find those that follow the links,
-- Iks.Info what a node holds, Iks.Write `iks_string`, and Iks.Copy `iks_copy`. A loop over
-- links takes fuel. The two loops of `iks_string` go the same way and are one function of what
-- they do on their way, which is a record of type Pass. Iks.Tree has the trees that nodes stand
-- for.
--
-- Dom models src/dom.c: the hooks `tagHook`, `cdataHook` and `deleteHook` as commands on the
-- heap, whose run so far is the user data of the parser of Sax, and `iks_dom_new`,
-- `iks_set_size_hint` and `iks_tree`. Dom.File has `iks_load`, whose loop has fuel for its
-- rounds, and `iks_save`, over files that are a parameter. The size of a stack's chunks is not
-- followed further.
--
-- Stream models src/stream.c, over the hooks of Sax and the tree of Iks. Stream.Types has
-- `struct stream_data`, whose flags are three bits, the transport and the TLS layer that it
-- calls, and actions on them; what lies outside is a world that these calls change. Stream.Send
-- has what is sent, Stream.Sasl the answers of SASL, Stream.Hooks `tagHook`, `cdataHook` and
-- `deleteHook`, Stream.Connect the functions that connect, and Stream.Recv `iks_recv`, whose
-- loop has fuel for its rounds. The transport, the TLS layer, the random source, the allocator
-- and the hook of the client are parameters. The hook of the client acts on the stream, and is
-- taken not to reset the parser that calls it. Stream.Leads has the rule by which what two
-- actions keep is put together.
--
-- Io models src/io-posix.c where HAVE_GETADDRINFO is set: the functions that the default
-- transport consists of, over the calls of the system, which are a parameter. `io_send` and
-- `io_recv` have fuel for the rounds of their loops, that is for the bytes and for the calls
-- that a signal interrupts.
--
-- Ikstack models src/ikstack.c: a stack is two lists of chunks, each with its area of memory,
-- and a pointer is the place of a chunk with an offset. The other parts take the stack as an
-- allocator that grants or refuses.
--
-- Base has what the parts share: Boolean tests on native numbers, lists and byte strings, C
-- strings, and texts without a NUL.
--
-- Bytes are numbers below 256, an area of memory is a list of them, and `none` stands for NULL.
-- Lengths are natural numbers, but the counters of the parser wrap at 64 bits, and the value of
-- a UTF-8 sequence at 32.
--
-- Not modelled: TLS (src/tls-gnutls.c and src/tls-openssl.c), which is calls of other
-- libraries, the branches of src/io-posix.c for systems without `getaddrinfo` and for Windows,
-- and the Python binding, the tools and the tests.
pub mod Base
pub mod Base64
pub mod Filter
pub mod Iks
pub mod Io
pub mod Dom
pub mod Ikstack
pub mod Jabber
pub mod Md5
pub mod Sax
pub mod Sha
pub mod Stream
pub mod Tests
pub mod Utility
