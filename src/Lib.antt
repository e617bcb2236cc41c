-- ===== src/Lib.antt =====
-- A model of rns_icn, an information-centric network over the Reticulum stack: a consumer sends an
-- Interest for a name, routers forward it and remember it, and the Data comes back on the same way.
--
-- The parts, and how they work together. A packet that a face delivers is decoded
-- (rns_icn/packet.py), its name too (rns_icn/name.py). The forwarder looks an Interest up in the
-- content store, in the Pending Interest Table (rns_icn/pit.py) and, by longest prefix, in the
-- Forwarding Information Base (rns_icn/fib.py), and the strategy (rns_icn/strategy.py) decides from
-- the three what is done. Data that is published to a stream is pushed to its subscribers
-- (rns_icn/aps.py), and kept for those that cannot be reached (rns_icn/offline_queue.py). Large
-- content is cut into chunks and assembled again (rns_icn/chunker.py, rns_icn/assembler.py). The
-- forwarder is rns_icn/forwarder.py, its cache rns_icn/content_store.py. A consumer fetches through
-- rns_icn/client.py, which checks what it gets, follows the pointers of rns_icn/discovery.py and
-- opens restricted content with the capabilities of rns_icn/access.py. Servers that are peers
-- replicate Data to each other (rns_icn/propagation.py).
--
-- Which file models what:
--   Wire          the exceptions, what is used of `struct`, `_parse_version`, `_write_varint` and
--                 `_read_varint` of rns_icn/packet.py
--   Name          rns_icn/name.py: `Name` with `from_bytes`, `to_bytes`, `starts_with`, `__eq__`;
--                 in Name/Text `__str__`
--   Packet        rns_icn/packet.py: a child for each packet (`Packet/Interest` is `Interest`,
--                 `Packet/Peers` is `PropPeer` and `CapPeer`, and so on), `Packet/Metadata` and
--                 `Packet/Selector` for their parts, `Packet/Data/Envelope` for what a producer
--                 signs, and `Packet/Envelope` for `parse_packet`
--   Pit           rns_icn/pit.py: `Pit`, an operation for each method
--   Fib           rns_icn/fib.py: `Fib`, likewise
--   Strategy      rns_icn/strategy.py: `BestRoute`; `decide` is the decision
--   OfflineQueue  rns_icn/offline_queue.py: `OfflineQueue`; `put` is called `enqueue` here
--   Aps           rns_icn/aps.py: `APSManager`
--   Chunks        rns_icn/chunker.py, `ChunkRef` and `ContentManifest` of rns_icn/manifest.py, and
--                 in Chunks/Assembly rns_icn/assembler.py
--   Access        rns_icn/access.py: `Capability` and the ciphers' use, and in Access/Control
--                 `AccessController`
--   Discovery     rns_icn/discovery.py
--   ContentStore  rns_icn/content_store.py: the tables and the eviction; in ContentStore/Operations
--                 `insert`, `get` (called `lookup_name` here), `get_prefix` and the rest
--   Forwarder     rns_icn/forwarder.py: `express` and what it leads to; in Forwarder/Receive
--                 `receive_data` and `receive_nack`, in Forwarder/Streams the consumer's calls
--   Client        rns_icn/client.py: the checks and the retries of a fetch; in Client/Ranges
--                 `fetch_latest` and `fetch_range`
--   Propagation   rns_icn/propagation.py: the peers, a sync with one, and the replication of Data
--   Server        rns_icn/server.py: `_serve_from_cs`, `handle_invalidate` and `invalidate`
--   Prelude       lists, dictionaries, equality and `min`; Samples has values for the runs
--
-- How the code is read. A byte string is a list of numbers, and a number of the program is a native
-- natural number, with the widths of the wire written out where the code packs it. A method that
-- changes its object takes the state and returns the new one. An exception is a value of `Result`
-- with its class. A reader that has `data` and `pos` is handed `data[pos:]`. A Python dictionary
-- is an association list in the order of insertion, a set a list. The clock is an argument, in
-- milliseconds where the source has floats. BLAKE2b, the signer, the validator and the faces of the
-- server are arguments of what uses them; an `await` is one step, nothing runs in between. All
-- loops run over a list, but for two that run on fuel: the loop of `chunk_content`, for which the
-- length of the content is enough if the chunk size is positive, and the digits of a label, one
-- for each unit of the index and one more.
--
-- The forwarder, the store and the client. A coroutine of the forwarder runs up to the future that
-- it awaits, and `Outcome` says where it stopped; a reply to the future is a later step, so that
-- any interleaving is a sequence of events. The ciphers and identities of RNS are the record
-- `Crypto`, what a client is answered is a function of the attempt, and the UTF-8 decoder of
-- `Name.__str__` is an argument. Of the SQL tables one is a dictionary by primary key, the other a list of
-- pairs; rows of equal time keep the order of the table, and a number of 2^63 or
-- more that `insert` or `get_prefix` binds is an OverflowError. The number of attempts of a fetch is
-- `max_retries + 1`; `fetch_range` and `stream_fetch` run for as many rounds as their bound, and
-- without one the model is of their first rounds.
--
-- Not modelled: rns_icn/rns_server.py, of rns_icn/server.py the dispatch of packets and the
-- manifest, links, the announces of peers, configuration, logging and the command line, which are
-- mostly I/O around the parts above. Of the files above: `from_string` of names, the setters and
-- `clone` of packets, `OfflineQueue.peek`, `data_for_label`, of rns_icn/manifest.py the JSON
-- forms and the producer's manifest, of rns_icn/propagation.py the fetch and the summary of
-- manifests and `propagate_to_new_peer`, of rns_icn/content_store.py the opening and recovery of
-- the database and `_entries`, and of rns_icn/client.py the links, the faces, `resolve` and the
-- set-up, which call the RNS library.
--
pub mod Prelude
pub mod Wire
pub mod Name
pub mod Packet
pub mod Pit
pub mod Fib
pub mod Strategy
pub mod OfflineQueue
pub mod Aps
pub mod Chunks
pub mod Access
pub mod Discovery
pub mod ContentStore
pub mod Forwarder
pub mod Client
pub mod Propagation
mod Samples
pub mod Server
