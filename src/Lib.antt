-- ===== src/Lib.antt =====
-- ML-RSIM is an event-driven simulator of a multiprocessor: processors with out-of-order
-- pipelines, a cache hierarchy, a split-transaction bus, a memory controller with DRAM, and SCSI
-- and PCI devices. This library models the parts of it on which all others stand.
--
-- The parts and their files:
-- src/sim_main/evlst.c, src/sim_main/evlst.h: the event list. EventList has the heap of events
-- with the global head, tail and size, and one function per operation: insert is
-- YS__EventListInsert, remove is YS__EventListRemove, get_head is YS__EventListGetHead,
-- event_sched_time is EventSchedTime, schedule_event and deschedule_event are the macros.
-- src/sim_main/main.c: Driver has a turn of the loops of DriverRun over that list (round) and the
-- loops (driver_run), with the function that an event calls as a parameter, and with the state of
-- the modules that such functions change. Driver/Edits says what they do to the event list.
-- rdy_list_append of EventList is YS__RdyListAppend.
-- src/Caches/lqueue.h: LinkQueue, the ring of pointers through which the modules of the memory
-- system pass requests.
-- src/Processor/circq.h: CircQueue, the bounded queue of the processor on an array whose size is a
-- power of two: start, insert, insert_at_head, delete, delete_from_tail, peek_head, peek_tail,
-- peek_elt, set_elt, reset and search are the members with these names in circq. to_power_of_2 is
-- ToPowerOf2 of src/sim_main/util.h.
-- src/Caches/pipeline.c, src/Caches/pipeline.h: Pipeline, the pipelines in front of a cache, with
-- the current time as an argument: new_pipeline is NewPipeline, add_to_pipe is AddToPipe, and
-- get_pipe_elt, clear_pipe_elt and set_pipe_elt are the macros of these names.
-- src/Caches/cache.c, src/Caches/cache.h: Cache, the tag array. search is Cache_search,
-- hit_update, pmiss_update and miss_update are Cache_hit_update, Cache_pmiss_update and
-- Cache_miss_update.
-- src/Processor/tlb.cc, src/Processor/tlb.h: Tlb, the translation lookaside buffer. Tlb has the
-- entries with ProbeEntry (probe_entry), Flush, ReadEntry, WriteEntry and MissEntry, Tlb/LookUp
-- has LookUp (look_up) with one function for each type of TLB, and Tlb/Fill has Fill and
-- Perform_Fill. The tests of the bits of a page table entry and the memory are parameters.
-- src/Processor/funcs.cc: Alu, the instructions on integers, as functions of the operands and the
-- decoded fields of an instance; an int is its bit pattern, a number below 2^32, and fn_addccc is
-- fnADDCcc, fn_subccc fnSUBCcc. Alu has sums and differences with their condition codes, Alu/Logic
-- the logic, Alu/Branch the instructions on a condition, whose call of the branch predictor is a
-- result, Alu/Shift the shifts and Alu/Divide products, quotients and fnPOPC, whose loop has a
-- round for each four digits of a word and one more. The operand is an immediate where aux1 says
-- so, which is its second bit for a shift.
-- src/Processor/branchpred.hh, src/Processor/branchpred.cc: BranchPredictor has the tables of two
-- bits with BPBSetup, BPBPredict and BPBComplete and the stack of return addresses with RASSetup,
-- RASInsert and RASPredict, BranchPredictor/Decode has StartCtlXfer and decode_branch_instruction.
-- The branches of Alu/Branch say what BPBComplete is told.
-- src/Processor/branchpred.cc: Speculation is the queue of branches with shadow mappers:
-- add_branch_q, remove_from_branch_q, copy_branch_q and flush_branch_q are AddBranchQ,
-- RemoveFromBranchQ, CopyBranchQ and FlushBranchQ. What the rest of the processor does meanwhile
-- to the mappers and to the branches that wait is a step of the relation in Speculation/Steps.
-- src/Caches/ubuf.c, src/Caches/ubuf.h: UncachedBuffer, the buffer that combines uncached
-- accesses. UncachedBuffer has the entries and UBuffer_add_request (add_request),
-- UncachedBuffer/Send has MaxCoalesce (max_coalesce), UBuffer_out_sim (out_sim) and
-- UBuffer_confirm_transaction; run_loop and take_loop get one round more than an entry has words,
-- which is enough where no request is shorter than a word, and the loops that halve get one for
-- each word of an entry.
-- src/IO/addr_map.c, src/IO/addr_map.h: AddrMap, the map of one node as a list of entries in order
-- of their low addresses: insert, remove and lookup are AddrMap_insert, AddrMap_remove and
-- AddrMap_lookup.
-- src/IO/disk_cache.c: DiskCache, the segmented cache of a SCSI disk. DiskCache has the segments
-- with their ages and DISK_cache_getsegment (get_segment), DISK_cache_newsegment (new_segment) and
-- DISK_cache_touch_segment; DiskCache/Store has DISK_cache_insert, DISK_cache_touch,
-- DISK_cache_write and DISK_cache_getwsegment, DiskCache/Hit has DISK_cache_hit, and
-- DiskCache/Commit has DISK_cache_commit_write.
-- src/Bus/bus.c, src/Bus/bus.h: Bus, the arbitration for the system bus, with the current time as
-- an argument and the time for which the arbitrator event is scheduled as a field, all times in
-- tenths of a cycle, since the program has times inside a cycle: recv_arb_req, arbitrate,
-- wakeup_winner and bus_main are Bus_recv_arb_req, Bus_arbitrator, Bus_wakeup_winner and Bus_main.
--
-- src/Memory/mmc_bus.c: Mmc, what the memory controller does for one request: recv_request,
-- recv_cohe_response, recv_data_response, data_fetch_done and send_reply are the functions
-- MMC_recv_request and so on. The actions of other modules are a list, the answers of the snoopers
-- and the data of the memory are reports (Mmc/Reports), in any order.
-- src/Caches/l2cache.c, src/Caches/cache_wb.c, src/Caches/cache_bus.c: Coherence, the check of a
-- request of another processor in a second-level cache, on the tag array of Cache and the data
-- pipe of Pipeline: Coherence/Snoop has L2ProcessTagCohe (process_tag_cohe) with Cache_make_wb_req
-- and Cache_make_cohe_to_l1, Coherence has L1DCache_wbuffer_search (wbuffer_search) and
-- Cache_check_outbuffer (check_outbuffer), Coherence/Misses has L2Cache_check_mshr (check_mshr),
-- and reply_state of Coherence/Single is the state that L2ProcessTagReply gives a line. Req has
-- the types of a request of src/Caches/req.h.
--
-- A request on the bus enters Mmc and is checked by every Coherence cache; the answers of the
-- checks are reports for Mmc, which makes the type of the reply of them.
--
-- The driver takes events off the event list and calls them; a handler schedules others through
-- EventList. The handlers of the caches move requests between LinkQueue rings and call the
-- operations of Cache on the tag array.
--
-- Conventions. Pointers are numbers or the elements of a parameter type, NULL is none, and an
-- operation that may end the simulator by YS__errmsg or that may read outside an array returns
-- Checked (Prelude/Outcome). Simulation times, doubles in the code, are tenths of a cycle in Bus,
-- where the code rounds them to cycles; in EventList and Driver, which only compare them and add
-- to them, their unit is any that divides all of them, and elsewhere it is a cycle. Unsigned
-- fields keep their wrap-around where the code can reach it. The loops over linked lists run on
-- the length of the list plus one as fuel (size + 1), which the theorems on them show to be
-- enough; loops over arrays are structural in the number of turns. The loop that rounds a time to
-- a bus cycle runs on the number of cycles in one. The loops of the disk cache that start again
-- run on the number of blocks plus one (DISK_cache_hit, DISK_cache_getsegment, DISK_cache_touch),
-- on the number of segments plus one (DISK_cache_newsegment) or on the highest end of a segment
-- plus two (DISK_cache_commit_write): each start takes a block off the range, raises the age, or
-- raises the block.
--
-- Not modelled: trace output, statistics records other than the prefetch counters, the pipeline of
-- the processor but for its circular queue, its TLB, its branch predictor with the shadow mappers
-- and its instructions on integers, the state machines of the first-level caches and the I/O
-- modules, the replies and the write-backs of the second-level cache, the timing of the memory
-- controller and the DRAM, and a transaction on the bus.
pub mod Prelude
pub mod LinkQueue
pub mod CircQueue
pub mod Pipeline
pub mod Tlb
pub mod Alu
pub mod BranchPredictor
pub mod Speculation
pub mod EventList
pub mod Driver
pub mod Cache
pub mod UncachedBuffer
pub mod AddrMap
pub mod DiskCache
pub mod Bus
pub mod Req
pub mod Mmc
pub mod Coherence
