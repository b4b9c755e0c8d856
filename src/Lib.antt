-- ===== src/Lib.antt =====
-- if_flow: a host agent that accounts network traffic by flow and minute.
--
-- The program captures packets with libpcap, decodes their headers, looks for a name in the payload,
-- asks an attribution cache that an eBPF program feeds (and, behind it, /proc) for the process, gives
-- the flow a class, and adds the packet to a table of flows by minute. A loop in main streams updates,
-- flushes closed minutes and writes JSON lines. The files and the code they are about:
--
--   Base       shared helpers: lists, Boolean tests, C strings and safe_copy, signed integers, and the
--              loop that compacts an array in place, which three components share (Base/Sweep)
--   Flow       include/flow_table.h: flow_key_t, flow_entry_t and the enums
--   FlowTable  src/flow_table.c: touch, streaming emission and the final flush, as functions on the
--              table; Runs has whole captures as lists of such calls
--   Classify   src/main.c: the port rules, classify_flow and the ICMP and IP protocol classes, and the
--              derived connection fields that src/writer_jsonl.c has, too
--   Parser     src/parser.c: the TLS SNI and the HTTP Host reader
--   LocalIps   src/local_ip.c and detect_direction of src/main.c
--   EbpfTracker  src/ebpf_tracker.c: the attribution cache, its events, polls, pruning and lookup, and
--              the attachment of programs
--   Json       src/writer_jsonl.c: json_escape and the printing of numbers; Json/Reader is a JSON string
--              reader by the standard's grammar, which is not part of the program
--   Writer     src/writer_jsonl.c: paths, chunks, rotation, and the record of a flow (Writer/Record)
--   Headers    src/main.c: parse_l2_offset and the header part of packet_handler
--   Packet     src/main.c: packet_handler up to the touch that it hands to the flow table, with the
--              process of the packet as an argument
--   Resolver   src/resolver.c: the cache of answers; Resolver/ProcFs is what it reads of /proc,
--              Resolver/Identity the cache of process identities, Resolver/Sockets the socket tables,
--              Resolver/Owners the owners of inodes, Resolver/Scan resolver_lookup
--   Kprobe     bpf/if_flow.bpf.c: the events of the in-kernel program
--   Agent      src/main.c: the state of the program and the whole of packet_handler; Agent/Loop is the
--              loop of main with the flush behind it, Agent/Output is flush_flow_entry, Agent/Selftest
--              is run_selftest, Agent/Main is main with its ways to end
--   Config     src/config.c: the defaults and the argument loop
--   Tests      runs at concrete inputs
--
-- Conventions. Numbers are natural numbers with the wrap-around of their width written out; where a
-- count cannot reach the width the hypotheses say so. Times, which the source keeps in doubles of
-- seconds, are whole nanoseconds; a time among the arguments may be an infinity or a NaN, too
-- (Config), but main is modelled where atof gives finite numbers. A text is the bytes in front of its
-- NUL, also where a parser has copied bytes with a NUL among them, and a pointer that may be NULL is an
-- Option. The allocator, the wall clock, the file system, libpcap, libbpf, inet_ntop,
-- getifaddrs, strftime, the files of /proc, %x of sscanf and the readers of numbers of the C
-- library are arguments: the allocator says which requests it grants, the clock has one reading for
-- each call. Payload reads can fault, and an early return is told from a fault and from a loop that
-- runs out of fuel (Parser/Reads); the loops of the readers run on the payload's length, which is
-- enough since each turn moves on by at least one byte. The loop over the chunks of a day has no
-- bound in the source; it runs on fuel, and any fuel above the index of the first chunk with room
-- is enough.
--
-- A run of the loop of main is a list of turns: what libpcap hands over in a dispatch and whether it
-- fails then, the events of a poll, and the times that the clock shows. The loop takes one turn after
-- the other, so a signal, which ends it, is the end of the list. The calls of flush_flow_entry that the
-- table makes are collected in order and written in that order afterwards, each with its own answers of
-- the file system: the table does not depend on what a write does. The allocator's refusals and clocks
-- that go back are among the answers everywhere.
--
-- Not modelled: the messages on stderr and the two lines that main prints at its start, sleeping, what
-- is freed at the end of the process, the help text, and the time stamp in an event of the in-kernel
-- program, which no one reads. The Python, shell and dashboard files around the program are not C and
-- take no part in it.
pub mod Base
pub mod Flow
pub mod FlowTable
pub mod Classify
pub mod Parser
pub mod LocalIps
pub mod EbpfTracker
pub mod Kprobe
pub mod Resolver
pub mod Json
pub mod Writer
pub mod Headers
pub mod Packet
pub mod Config
pub mod Agent
pub mod Tests
