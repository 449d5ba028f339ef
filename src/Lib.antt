-- ===== src/Lib.antt =====
-- A verification library for aping, which sends ICMP messages and follows the answers.
--
-- The program runs three threads that share global variables. The sender (sender.c) builds a packet in
-- `buffer`, an IP header and an ICMP message that a loader (dissect-*.c) writes, with checksums from
-- chksum.c, and hands it to `atomic_sendto` (socket.c). The receiver (receiver.c) takes frames from
-- libpcap, finds their layers by the length of the link header (datalink.c), drops what the filter
-- (filter.h, user-filter.h) does not want, lets its agents update the round trip times and the ids
-- of the remote host, and prints a line with names from ns-cache.c and estimates from statistic.c.
-- The keys (keystroke.c) steer both, and at the end aping.c prints a report. Before, `main` of aping.c
-- reads the options, looks up the addresses (ns-cache.c, iface.c) and starts plugins (plugin.c), each
-- a process that the loader (plugin/loader/loader.c) turns into the plugin; wmdata.c is a ring of
-- messages in shared memory for them.
--
-- Which file models which part:
--   Chksum      chksum.c: `chksum`, whose argument is the list of the bytes.
--   State       typedef.h and global.h: `OPT`, `TIME`, and the globals as one record.
--   Memory      bytes of memory from a base address on, and the assignments to fields.
--   Sender      sender.c: `sizeof_icmp`, `load_layers`, `load_ip`.
--   Sending     sender.c: the loop of `sender`, on a list of what each turn meets (Sending), and with
--               the datagrams that it hands to `atomic_sendto` (Sending/Wire); what is before
--               the loop (Sending/Start).
--   Loader      dissect-echo.c, dissect-timestamp.c, dissect-information.c, dissect-mask.c: loaders.
--   Socket      socket.c: `atomic_sendto`, on the bytes and the list of the results of `sendto`.
--   Packet      receiver.c `lineup_layers` and the accessors of filter.h.
--   Filter      filter.h and user-filter.h: the rules.
--   Agent       receiver.c: `agent_timestamp`, `agent_dyn_id`, `agent_ipid`, `reset_stat`, `ntohss`.
--   Statistic   statistic.c: `E` (Expectation), `TTL_PREDICTOR` (Ttl), `magic_round` (Round),
--               `link_type` (Link).
--   Bandwidth   statistic.c: `bandwidth_predictor`.
--   Receiver    receiver.c: what `print_RR`, `process_pack` and the inner loop do to the globals;
--               fnv.c.
--   Screen      receiver.c: what `print_RR` and `process_pack` print, each call of `PUTS` a line with
--               its values (Screen); the functions of `icmp_dissect_vector` in dissect-*.c and the
--               lines of `bandwidth_predictor` (Screen/Dissect); the tables of def_icmp.h,
--               global.h and fingerprint.h (Screen/Names).
--   Keystroke   keystroke.c, and `ctrlc` of aping.c.
--   NsCache     ns-cache.c: both tables, the ring of buffers, the mutex.
--   Args        argscheck.c: `checkargs` and its checks. Loader/Quoting has the loaders that use it:
--               dissect-echo-reply.c, dissect-source-quench.c, dissect-redirect.c and
--               dissect-destination.c.
--   Main        aping.c: `defaults`, the options (Main), and `main` up to the threads (Main/Setup).
--   Iface       iface.c: `get_first_hop` and `gethostbyif`.
--   Usage       usage.c: the lists of types, codes and links; maturity.h.
--   Plugin      plugin.c, `discard_plugin` of aping.c, and `main` of plugin/loader/loader.c.
--   Watermark   wmdata.c: `eth_crc`, `watermark_push`, `watermark_pop`.
--   Neural      neuralnetwork.c: the allocation (Neural), the file (Neural/File), and `fire_nn`
--               (Neural/Fire) and `feed_from_file` (Neural/Feed).
--   Datalink    datalink.c. Hardware is hardware.c, StrCopy is strlcpy.c, StrCat is strlcat.c.
--   Report      `ISQRT` of macro.h, and the figures of `report` in aping.c.
--   Base        numbers, lists, texts, bits and faults that the others share. Tests holds runs.
--
-- The target is a little-endian host on which `int`, `long` and addresses have 32 bits, and which is
-- not FreeBSD (`FIX` is `htons`). A `long` is an integer that `i32` cuts at each store; words that
-- are only masked or compared are natural numbers. Code that calls `fatal`, divides by 0 or reads
-- past a table returns a fault. Memory has no end of its own: what is read of `buffer`, of
-- `MAX_PACSIZE` bytes, by a length that depends on the pattern is tested, and a read past it is a
-- fault. `strdup` succeeds. Parameters stand for the resolver and the day (NsCache), the memory past the end of `icmp_parent` (Filter), the addresses of the variables that
-- `E` keeps (Agent), the frame and its time (Receiver), the results of `sendto` (Socket), those of
-- `getopt`, `fork` and `dlopen` (Main, Plugin), the interfaces (Iface), random numbers (Loader/Quoting),
-- the arenas that a reader meets (Watermark), the operations on doubles (Neural/Fire), `strtod` and the
-- callback of `feed_from_file` (Neural/Feed), what `sender` meets before its loop (Sending/Start),
-- and what a buffer holds before its first use.
-- The loop of `magic_round` runs on fuel: one more than the time in ms is enough, since each turn
-- adds a period of at least 1 ms. The loop of the class of a mask has 32 turns of fuel, after which a
-- word of 32 bits is shifted to 0, and that of `feed_from_file` one turn more than the file has bytes,
-- since a turn for a network with inputs reads one at least. The other loops recurse on their data.
-- Two lookups in the arguments of one `PUTS` are made from left to right.
--
-- Not modelled: what is printed in the loop of the sender, by the keys, the options and the report,
-- and the fixed texts of `usage`; the pauses of the sender, the set-up of libpcap, the start of the
-- threads, the limits of the process; the plugins, which print; of neuralnetwork.c the release of memory
-- and the dump as XML; libpcap and the system.
pub mod Base
pub mod Chksum
pub mod Main
pub mod Memory
pub mod State
pub mod Statistic
pub mod Sender
pub mod NsCache
pub mod Packet
pub mod Filter
pub mod Agent
pub mod Bandwidth
pub mod Receiver
pub mod Keystroke
pub mod Args
pub mod Iface
pub mod Loader
pub mod Screen
pub mod Socket
pub mod Plugin
pub mod Report
pub mod StrCat
pub mod StrCopy
pub mod Hardware
pub mod Datalink
pub mod Sending
pub mod Tests
pub mod Usage
pub mod Watermark
pub mod Neural
