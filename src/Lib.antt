-- ===== src/Lib.antt =====
-- coev is a library of coroutines with clients of several protocols on top. This development is
-- about its core of coroutines, in src/coev: how coroutines wait and are woken, on one thread and on
-- several. It is also about the Kafka client in src/coev_kafka: the packet codec, what a message puts
-- into a packet byte by byte and gets back out of one, the transaction manager, and how partitions
-- are shared by the members of a consumer group; and about the messages of the ZooKeeper client, in
-- src/coev_zookeeper.
--
-- The parts of the program and how they interact:
--   * queue (queue.h, queue.cpp) is the intrusive list that all the waiting is built on.
--   * co_event (co_event.cpp) is what a coroutine awaits. It is a node of a queue, and resumed once by
--     whoever takes it from there, on the same thread or on another.
--   * co_async (co_async.cpp) is a queue of events. guard::co_async holds it behind a lock and takes
--     functions of the client to run there: guard::co_mutex (co_mutex.cpp), guard::co_channel
--     (co_channel.h) and co_waitgroup (co_waitgroup.cpp) are such functions over their own fields.
--   * co_channel (co_channel.h) does without a lock and wakes in the next loop (local_resume.cpp).
--   * TransactionManager (transaction_manager.cpp) has the status of a producer's transaction, and
--     sends its requests by Retry.
--   * balance_strategy.cpp shares the partitions of a topic, partitioner.cpp picks one for a message.
--   * oarchive and iarchive (proto.cpp of src/coev_zookeeper) write and read the messages of ZooKeeper,
--     one function for each message on either side, made of those for its parts.
--   * packet_encoder (packet_encoder.cpp) puts values into a packet. A message is put twice into
--     it: PREP counts the bytes, REAL writes them into a buffer of that size. The two passes are
--     two branches of every put and have to agree.
--   * packet_decoder (packet_decoder.cpp) gets values from a buffer, from m_offset on.
--   * crc32_field.cpp has the checksum that stands in front of a batch of records, and a
--     pool of such fields.
--   * prep_encoder.cpp and real_encoder.cpp have the two passes as two classes of their own.
--   * flexible_type.cpp counts scopes of the flexible version of the protocol, in which lengths are
--     varints. Every put and get of a length looks at it.
--   * length_field.cpp and variant_length_field.cpp are the lengths that push reserves and pop
--     fills in or checks.
--   * encoder_decoder.cpp runs a message's own functions over all of these: encode, decode,
--     decode_version.
--
-- The files:
--   * Base: shared names, lists over the native numbers, signed integers (Int), bits (Bits, and
--     Xor with the laws of exclusive or).
--   * Core/Queue: queue, an object being its address, with the pointers m_next and m_prev of each. Chain
--     and Ring say when these are a queue of given nodes, Refine compares calls with those on a list.
--   * Core/Event: co_event with the two parties, a step for every access to it, the accesses of both in
--     one order. Race is about their orders.
--   * Core/Async: guard::co_async. What it runs between lock and unlock is one step, an event with its
--     getter one entry of a list.
--   * Core/Mutex, Core/Channel, Core/WaitGroup: its clients. Mutex/Exclusion and WaitGroup/Wakes have
--     invariants of step relations, Channel/Order a run of calls in the order of their turns at the
--     lock. Channel/Local is co_channel without a lock.
--   * Core/Tests: runs of these.
--   * Kafka/Transaction: the status of TransactionManager, its flags and the functions that change it.
--     Status has calls in any order, Fatal those after a fatal error, Retry the template of that name.
--   * Kafka/Range: the range strategy, Plan of balanceStrategy included. Shares is about one topic, Unique
--     about sorted members, Whole about all topics, Subscribers about who asks for them.
--   * Kafka/Partitioner: the partitioners. The random choice and the hash function are parameters; the
--     choice is taken to be one of the partitions, as std::uniform_int_distribution says.
--   * Kafka/Tests: runs of these.
--   * Zoo/Archive: the two archives. Rules and Values say how parts and single values travel from one to
--     the other. Zoo/Basic, Session, Login, Watch, Node, Create,
--     Children, Quorum, Txn and Multi have the messages of proto.h with their functions (oarchive::Stat
--     is put_stat, iarchive::Stat get_stat), and in Travels what becomes of each. Zoo/Message joins all
--     messages. Zoo/Tests: runs.
--   * Wire/Outcome: what a call comes to. `ok` is the return of 0, `err` that of another code,
--     `fault` a failed assertion, an exception or an access outside of a buffer, `stuck` a loop
--     that does not end. Get and Put are functions from the state to an outcome.
--   * Wire/Format: the bytes of the protocol, written down apart from both sides.
--   * Wire/Decoder: packet_decoder. The record Decoder has m_flexible, m_offset, m_raw and m_stack;
--     get_int32 is getInt32, and so on. Varint, Strings, Arrays, Tagged and Fields model the other
--     member functions. View has the rules for reading a message part by part, ReadBack and Values
--     what is read from the bytes of the format, Safety what holds on any bytes. Fields/Stale and
--     Tagged/Behind are about pop of a LengthField and about the decoders of tags.
--   * Wire/Encoder: packet_encoder, in the same way. `count` is m_length in PREP and m_offset in
--     REAL, which share their storage. View has the rules for writing a message part by part, the
--     modules Bytes and Counts what is written and counted, Fields/Framed a body behind its length.
--   * Wire/Field: LengthField and VariantLengthField, which the stacks hold by value; Size is about
--     variantSize.
--   * Wire/Crc: crc32_field.cpp, on a buffer and the place that its cursor has reached; an access
--     outside of the buffer or of the table is none. Crc/Table is about the table, Crc/Bits about
--     single steps, Crc/Check about fields in a packet, Crc/Tests has published check values.
--   * Wire/Separate: Prep is prep_encoder.cpp, Real is real_encoder.cpp. Calls has lists of calls, Like
--     what it is to do as packet_encoder does, Counts and Writes go through the calls one by one,
--     Agree through lists of them, Uncounted is about putInt32Array, Separate/Tests has runs.
--   * Wire/Packet: encoder_decoder.cpp, over any message function. RoundTrip, Values and
--     Framed have whole packets, Mismatch what comes of two passes that disagree.
--   * Wire/Tests: concrete packets.
--
-- Bounds and fuel: a thread of Core/Event makes at most five accesses, so five turns are enough for
-- it to end. No add to a wait group takes a count above 0 to 0 or below. A vector that is shared out
-- has fewer than 2 ^ 31 items, a packet of prep_encoder fewer than 2 ^ 31 bytes, and so has a buffer
-- of packet_decoder, whose m_offset is an int. The loops over a varint have ten rounds, which is
-- their bound in the decoder and enough for 64 bits in the encoder. The loop of variantSize has fuel
-- of ten rounds, after which the model says `stuck`; a number that is not negative needs at most
-- ten. All other loops are over lists or counts. Integers are numbers with the wrap-around of their
-- width written out; a product of ints that overflows, which has no meaning in C++, is a fault, or
-- excluded where it is named.
--
-- Not modelled: the memory order of the exchanges of co_event, which are taken as sequentially
-- consistent; what an out parameter holds after an error; the memory that a resize asks for, which
-- is taken to be there; doubles, which are the patterns of their bits; the messages themselves;
-- the protocol of promises and handles, which is the compiler's, and co_task; what a thread does with
-- its waiting coroutines as it ends; sequence numbers and the requests of a transaction; the other
-- strategies; and the rest of the library, its sockets, brokers and other clients.
pub mod Base
pub mod Core
pub mod Kafka
pub mod Wire
pub mod Zoo
