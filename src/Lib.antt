-- ===== src/Lib.antt =====
-- A verification library for the checkers of MindStudio Sanitizer. Races: the events of a kernel are put
-- in queues, a machine hands them to a race algorithm pipe by pipe, the algorithm gives each memory
-- access a vector time, and a checker reports the pairs of accesses that race. Memory: tables of the
-- allocated blocks, sorted ranges of the allocated addresses and a state byte for each byte of memory
-- tell which accesses are wrong.
--
-- Parts, and the files that model them (paths of the repository from its root):
--   Base         numbers, lists, words, maps as association lists, sums and sorts that all parts share.
--   Event        csrc/core/framework/event_def.h, arch_def.h, record_defs.h, platform_config.h and
--                csrc/include/sanitizer_report.h: SanEvent, whose type and union are the data type
--                EventInfo, MemEvent, and the enumerations.
--   Clock        csrc/race_sanitizer/alg_framework/vector_clock.cpp: a vector time is a list of
--                counters; UpdateVectorTime is update_vector_time, and so on.
--   Container    event_container.cpp there: EventContainer is a record with the source's members,
--                and each method a function from one container to the next.
--   PipeLine     pipe_line.cpp there: each state's function is a step on a machine, and Run is run, the
--                steps on fuel. The handler is an argument, which may change the queues and the
--                algorithm's own state. PipeLine.Progress has the interface of a handler that makes
--                progress (Drains) and the fuel that is enough for it.
--   SyncDb       sync_event_data_base.cpp there: Set is set_event, Get is get_event.
--   Barrier      barrier_database.hpp there: BarrierEvent::Wait is wait, in two parts.
--   Signal       signal_database.cpp there: Set and Wait.
--   CrossCore    cross_core_sync_info_container.cpp there: State has the members, Flags the modes of
--                the hardware flags, Soft the software events, SyncAll and the mstx marks.
--   RaceAlg      race_alg_base.cpp (Shared) and race_alg_impl.cpp (Inner) there: a handler takes an
--                event, the container and the algorithm's state to a verdict and the new ones.
--   SinglePipe   single_pipe_race_alg_impl.cpp there: the counters of a pipe and the handler; the
--                counters, which the source leaves without initial values, start anywhere.
--   Checker      mem_event_checker.cpp (State, Overlap, Pairs, Scanline, Report) and mem_series.cpp (Series)
--                there. The overlap functions and the checks of pairs return what the source
--                returns, with the two indices that it changes in place. Checker.Bytes says which bytes
--                an access touches, from its fields and not by the code's intervals.
--   Asan         csrc/address_sanitizer: Msg is ErrorMsg of mem_error_def.h, Bounds the ranges of
--                bounds_check.cpp (an iterator is the ranges before it and those from it on), Spaces its
--                bounds for each address space, Heap the tables of heap_block_manager.cpp with the
--                releases in Heap.Free, Pm the two-level map of pm.cpp, and Shadow the state bytes and
--                the walks of shadow_memory.cpp. Memory is what the walks ask of a map; Pm fills it.
--                Convert is ConvertMemEvent of address_sanitizer.cpp on the record that SetBasicMemInfo
--                fills in, and Merge is MergeRecords there.
--   SyncCheck    csrc/sync_sanitizer/sync_sanitizer.cpp: DoMatchCheck, DoRedundancyCheck, the loop of Do
--                (do_each) and what Do reports.
--   Registers    csrc/register_sanitizer/register_sanitizer.cpp: the table of last values and the report.
--   Tests        (Machines, Checks, Sync, Memory, Kernel) runs on concrete inputs, and an instance of each result that has conditions.
--
-- Machine words are native numbers with the wrap-around written out (u8, u32, u64). An index past the
-- end of a vector, undefined in the source, reads an empty value and drops a write. What the source leaves
-- without a value (memInfo of an access by shadow memory records, the counters of SinglePipe) is a part of
-- the input, which may be anything. Hash maps are
-- association lists, and sets lists of entries: no result depends on the order of iteration. std::sort
-- is an insertion sort by the source's comparison. The heap tables, of which the source takes the first
-- entry that fits, are kept in the order of their keys.
--
-- Fuel: Run takes as many steps as PipeLine.Progress counts for a handler that makes progress. The
-- loops over intervals and records (extend, walk_series, walk_records, walk_mixed) take one element off
-- in each round and get as many rounds as there are elements. The walks over a range of memory get a turn
-- for each byte, since each takes a run of at least one byte.
--
-- Not modelled: the race algorithms across cores and across devices; of the memory checker the map of
-- global memory, the operations of the shadow memory around its walks, the error buffer, the alignment
-- check, and the actions on records.
-- Process control, hooks, logging and printing are input and output around these parts.
pub mod Base
pub mod Event
pub mod Clock
pub mod Container
pub mod SyncDb
pub mod Barrier
pub mod PipeLine
pub mod Signal
pub mod CrossCore
pub mod Checker
pub mod RaceAlg
pub mod SinglePipe
pub mod Asan
pub mod SyncCheck
pub mod Registers
pub mod Tests
