-- ===== src/Lib.antt =====
-- ariadne is an IPv4 router in user space. A manager thread takes frames from the receive rings
-- of netmap and queues them for worker threads. A worker checks each packet, looks up its
-- destination by longest prefix match, rewrites the header and queues the frame for the manager,
-- which sends it out of a transmit ring. What has no MAC address yet goes through an ARP table
-- that asks, answers and learns.
--
-- The files and the code that they model:
--
--   Base (Tests, Lists, Bits, Texts): shared names, Boolean tests, lists over native numbers, bit
--   operations as arithmetic, the comparison of texts.
--   Util: include/util.hpp, PREFIX_MASK, extractBit, mostSigOne, rotl, and the byte order
--   functions; MacText is mac_to_str and parseMac.
--   FileTable: src/fileTable.cpp, the constructor over the text of a file. Lines says what a
--   well-formed line is, Loaded what a file of them gives.
--   Interface: include/interface.hpp; the interfaces are a heap that the shared pointers point
--   into.
--   Headers: include/headers.hpp, the packet headers.
--   Checksum: include/util.hpp, IPv4HdrChecksum, in Sum as one closed formula; Forward is the
--   change of the header in src/worker.cpp.
--   RoutingTable: include/routingTable.hpp and src/routingTable.cpp. NextHops is buildNextHopList
--   with print_table; Indices says what it leaves, Levels and Runs carry it over the loops, Total
--   that it returns, Rebuild what a second call with new next hops does, Again what it does with
--   the same ones on other interfaces, Gateways which interface a next hop gets; Aggregate is one
--   round of aggregate, its Merging says how that ends, and its Whole is the loop over the
--   lengths.
--   Naive: src/naive.cpp. BasicTrie: src/basicTrie.cpp. Lpm relates the two to the definition of
--   the longest matching prefix (Longest): Prefix, Scan, Paths, Equivalence and Lookup carry the
--   proof, Routing has the results, Indexed applies them to numbered tables.
--   AddressMap: the std::unordered_map objects with addresses as keys, as association lists.
--   Frame: include/frame.hpp, and the packet buffers as a memory from addresses to packets; Hash
--   is frame::hash of src/frame.cpp, over bytes.
--   ArpTable: src/arpTable.cpp, createCurrentTable (Current), prepareRequest (Exchange),
--   handleReply and handleRequest (Learn).
--   Worker: src/worker.cpp. Route is the decision for one packet, Host what is dropped, Batch the
--   loops of process; Hops and Pipeline join routing table, ARP table, trie and worker. Thread is
--   run, stop and update of include/worker.hpp, Lifetime what becomes of the thread.
--   Netmap: the rings and buffers that src/manager.cpp uses, an interface with its documented
--   laws.
--   Manager: src/manager.cpp. Init is RoutingTable::update, initNetmap and startWorkerThreads;
--   Naming and Started say what they leave, Boot and FirstPackets what the workers then do.
--   Receive and ReceiveLaws are the first half of process, over one ring; Transmit is the second
--   half, Conserve, Rings and Missing its properties; Process is the whole and the loop of run,
--   Rounds that it goes on.
--   LinuxTable: src/linuxTable.cpp, the callbacks and updateInfo (Collect, Update). Netlink:
--   src/netlink.cpp, the callbacks and getAllInterfaces (Distinct). The messages are the input.
--   System: manager and workers over the queues inRings[0] and outRings[0], interleaved in any
--   order, as a step relation. Owners follows the packet buffers, Exclusive the packets of the
--   workers; Runs and Threads show that Manager::process and Worker::process are sequences of
--   steps; Answer follows an ARP reply to the next packet.
--   CommandLine: src/main.cpp, parseOptions and main (Branches).
--   Tests: runs on a small router, and the inputs at which the results apply.
--
-- State is passed explicitly, and an operation that can fault returns an Option or an Outcome:
-- none is a read through a null pointer, an access beyond the end of a vector, a failed assert,
-- abort or fatal. In Worker, stop names the reason. A machine word is a native number, and each
-- place where the code wraps has its modulus written out. The host is little-endian, as the
-- program's targets are, so htons and htonl swap bytes.
--
-- The loops are structural recursions, apart from some that run on fuel: in the receive loop
-- over a ring each round takes at least one free buffer, so more fuel than free buffers is
-- enough; a round of aggregate needs one more than its level has routes. extractBit shifts by a
-- negative amount at depth 32; what that yields is the parameter shifted_out, and no result
-- depends on it. The queues between the threads are the sequences of batches that come out of
-- them, and whether a bulk fits is a parameter. The clock readings of the manager are part of
-- its input.
--
-- A move of a worker's thread is an access to its state or one round of the loop in process,
-- which finds an empty queue, a bulk that it handles, or a frame on which it ends the program.
--
-- A step of System is a bulk that the manager receives from one ring, a bulk that a worker
-- dequeues, a frame that a worker processes, a frame that the manager sends, or a change that
-- the network card makes to the bounds of the rings and to the packets of receive slots. Within
-- a step nothing else happens; this is coarser than the program where a worker reads the current
-- ARP table while the manager writes it. A queue may refuse a frame or a bulk.
--
-- The chain of extra buffers in initNetmap runs on as much fuel as the memory region has
-- buffers. The system calls of initNetmap and poll are parameters. In frame::hash, what the
-- rotation of the protocol number by more than its width yields is the parameter wild; in
-- parseMac, what %x stores of a number too large for its target is the parameter oversize; in
-- FileTable, inet_aton and the value of in_addr at the start of a round (left_over) are
-- parameters.
--
-- Not modelled: the socket calls in src/linuxTable.cpp and src/netlink.cpp, the conversions of
-- numbers and IP addresses to strings in include/util.hpp, the sort of pointers in
-- Manager::fillNetLink, and output. src/pcTrie.cpp is disabled by the preprocessor.
pub mod Base
pub mod Util
pub mod Interface
pub mod RoutingTable
pub mod Naive
pub mod BasicTrie
pub mod Lpm
pub mod Headers
pub mod Checksum
pub mod AddressMap
pub mod Frame
pub mod ArpTable
pub mod Worker
pub mod Netmap
pub mod Manager
pub mod LinuxTable
pub mod Netlink
pub mod System
pub mod CommandLine
pub mod FileTable
pub mod Tests
