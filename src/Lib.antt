-- ===== src/Lib.antt =====
-- Verification of the programs of the repository `multithread`.
--
-- The repository holds separate programs. Six are modelled, and they share no state.
--
-- p1, a defragmenting allocator (p1/allocator.h, p1/allocator.cpp). An arena is cut into two
-- halves; the blocks of the active half are in a list; `defrag` copies the used blocks to the
-- other half. Client code holds a `Pointer`, which leads to a block by way of a block object.
--   Allocator/Blocks: the classes, the bytes of the arena as a function from addresses, list
--     iterators as a list with a position, and `fault` for undefined behaviour: an iterator used
--     at the end, a block that is not in the list, overlapping ranges in `memcpy`.
--   Allocator/Ops: every method, under its name in antt's spelling (`short_size_block` is
--     `shortSizeBlock`, `defrag_with_last` is `defragWithLast`); the longer methods are cut into
--     parts (`locate` and `take_block` of `alloc`; `shrink`, `grow`, `find_room`, `extend` and
--     `move` of `realloc`). A block object is a number, given by a counter as `new` gives it.
--   Allocator/Layout, Content, Edit: validity, the bytes behind a handle, and local changes.
--   Allocator/Store: the abstract store. The other files prove one method each.
--
-- p2, a chat client and server, and their message layer. A message travels as its length in four
-- bytes and then its bytes.
--   Messages/Message: `Message` (p2/message.h, p2/message.cpp), which puts messages together from
--     what `recv` returns. The arrays have their real size, 2048 and 1024; `none` is a write past
--     the end. The loop of `get_message` has fuel `len_add_part + 2`: a round that finds a rest of
--     the piece takes at least four bytes of it, and two rounds at most find none.
--   Messages/Waits, Text, Body, Receive, Drain: what a `Message` has of the stream of bytes.
--   Messages/Receiver, Interleave: `MessageReceiver` (p2/messagereceiver.cpp), one `Message` for
--     each socket; `std::map` is an association list in the order of its keys
--     (Messages/Dictionary).
--   Messages/Send: `MessageForSend` (p2/messageforsend.cpp), bytes that wait in blocks of 1024.
--     The loop of `add_message` has fuel `length + 1`, and each round takes 1024 bytes.
--   Messages/Queue, Fill, Append, Front, Erase, Space: the queue of bytes that it stands for, and
--     the size of the blocks.
--   Messages/Sender: `MessageSender` (p2/messagesender.cpp), one queue for each client.
--   Messages/Writing: the loop of `Server::writeMessages` (p2/server.cpp) for one client; what
--     `send` returns is a list of answers.
--   Chat/Client: `Client` (p2/client.h, p2/client.cpp), on what `select`, `recv` and `send` return
--     in each round; Chat/Session, Steps and Rounds: what has been typed, printed and sent.
--   Chat/Server: `Server` (p2/server.h, p2/server.cpp). Each handler takes what the kernel
--     answers. A call of `writeMessages` gives a row of what went to each socket (`Row`).
--     Chat/Queued: the queues of all clients; Chat/Passing: `readClient`; Chat/Welcome:
--     `processMasterEvent`; Chat/Gone: a client that has closed its connection; Chat/Across:
--     a client and the server together.
--
-- p3, a proxy on boost::asio (p3/proxy.h, p3/proxy.cpp). An operation under way is a value
-- (`Doing`), at most one in each direction, and its end is an event, which runs the handler bound
-- to it.
--   Proxy/Client, Relay: the handlers of `Client`, and the bytes that come and go. Proxy/Carried,
--     Handlers, Delivery: what the proxy carries.
--   Proxy/Accept: `ClientServer` and the map of its clients. Proxy/Config: the configuration that
--     the constructor of `Proxy` reads; its loops have one round more than there are bytes, and
--     each takes a byte.
--
-- p4, an inverted index (p4/main.cpp). A file is the list of its bytes, and the index files are the
-- places of a list; Index/Names has their names and their removal. A `set` is an ascending list, and a `map` one of pairs.
--   Index/Files: `saveIndexFile`, and the reads of `mergeIndex`. Index/Create: `createIndexsFiles`;
--     each round takes a byte, and there is one more than there are bytes. Index/Batches: the maps
--     that it writes, 2000 documents in each. Index/Postings: what they hold.
--   Index/Merge: `mergeIndex` with `saveWordids` and `saveOffsets`, `readIndex`, and `main`. The
--     open index files are cursors (`Cursor`). A round of the merge takes a byte of a file or ends
--     one, and the fuel is one more than there are bytes; `readIndex` has as many rounds as the
--     file has bytes, and each takes 16.
--   Index/Cursors, Gathering: a round of the merge, on the maps in the files. Index/Least, Pick: the
--     least word of some maps, and what is left without it. Index/Sorting: `sort`. Index/Merging,
--     Layout, Union: the merge as a whole. Index/Growing, Sound, Ordered: the maps before it.
--     Index/Whole: the program from the documents to the index. Index/Reading: `readIndex`.
--
-- p8, a parallel merge sort (p8/merge_sort.cpp), in Sort/Merge and Sort/Ascending. The segment is
-- a list, and the two parallel sections sort disjoint halves of it. The fuel is the length, and
-- each call halves it.
--
-- p5, a shell: its parser (p5/parser.cpp, p5/comand.cpp) and p5/main.cpp. Strings are lists of
-- bytes; a search for the next separator is a recursion on the string with the part that has been
-- searched.
--   Shell/Parser: `parse` and its parts. Shell/Words: the words of one command. Shell/Doubled:
--     `replace`. Shell/Printed, Signs, Parsed: command lines as text, and what `parse` makes of them.
--   Shell/Run: `run` on the parsed line, with its redirections, `wait` and the log: `fork` adds to
--     the list of what was launched, the statuses and the order in which children end are a
--     parameter (`System`), and `none` is a pipe read before it was made, or a null pointer.
--   Shell/Lines has the meaning of a line of pipelines; Shell/Pipelines, Waiting, Counts,
--     Steps, Evaluation and LeftOut compare the two.
--   Shell/Main: `main`. What the system decides in a round is a `Moment`; a child in the background
--     is a `Job`, which has a copy of the variables. A round takes a byte of the input, but for the
--     last, and the fuel is one more than there are bytes; a loop that goes on behind the fuel is told
--     apart from a fault. Shell/Session: an input of lines.
--     Shell/Ends: the end of the loop, and a child in the background.
--
-- Values of `size_t` wrap around at 2^64 (Base/Size), but for sums of sizes of what is in memory.
-- Bytes and addresses are natural numbers. Allocation never fails.
--
-- Not modelled: `print` and `dump` of the allocator; the calls that make sockets; the choice of a
-- server by the proxy; and of p5/main.cpp the handler of SIGINT, but for the moment at which it clears
-- `active_process`, and a child whose `execvp` fails, which returns from `run` and goes on as a second
-- shell.
pub mod Base
pub mod Allocator
pub mod Messages
pub mod Sort
pub mod Shell
pub mod Proxy
pub mod Chat
pub mod Index
