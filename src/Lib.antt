-- ===== src/Lib.antt =====
-- WoSRecomp: the host runtime for a recompiled Xbox 360 game.
-- The game's code, translated to C++, runs against a reproduction of the console: guest memory, the
-- kernel imports, and a command processor for the GPU. This library models the parts of the runtime that
-- keep state and decide, and of the tool that prepares the recompiler's input.
--
-- The parts, and the files that model them:
--   Guest      WoSRecomp/kernel/guest.h: big-endian loads and stores on guest memory, `Mem`, and the
--              status codes. Guest/Word has the byte swaps, Guest/Laws and Guest/Fields what a load sees
--              of earlier stores.
--   Heap       WoSRecomp/kernel/memory.cpp: `GuestAlloc`, NtAllocateVirtualMemory, NtFreeVirtualMemory.
--   Phys       WoSRecomp/kernel/system.cpp: the Mm imports and `PhysicalBlockEnd`; and `PhysicalToVirtual` of
--              WoSRecomp/kernel/video.cpp.
--   Pm4        WoSRecomp/gpu/pm4.cpp: the names and counts of packets and registers.
--   Packets    WoSRecomp/kernel/video.cpp: `ExecutePackets`, from one packet to nested buffers.
--   Ring       WoSRecomp/kernel/video.cpp: VdInitializeRingBuffer, VdEnableRingBufferRPtrWriteBack,
--              `ConsumeRing`, and a turn of `CommandProcessorThread`.
--   Events     WoSRecomp/kernel/sync.cpp: `EventObject`, `MutantObject`, `TimeoutToMillis`.
--   WaitAny    WoSRecomp/kernel/sync.cpp: `WaitAnyOf` against `Set`, as a step relation on the threads' atomic
--              steps.
--   Objects    WoSRecomp/kernel/object.cpp: objects, handles and guest pointers.
--   Sync       WoSRecomp/kernel/sync.cpp: the imports on events and mutants, on top of Events and
--              Objects; Sync/Waits has the waits on one object and on several.
--              Sync/Any has the waits for any of several, at one moment.
--   Threads    WoSRecomp/kernel/thread.cpp: `ThreadObject` and the steps of `GuestThreadMain`; Threads/Calls has the
--              thread imports.
--   Sections   WoSRecomp/kernel/thread.cpp: critical sections, as calls and as the atomic steps of threads.
--   Apc        WoSRecomp/kernel/file.cpp: a thread's queue of pending calls, `DeliverPendingApcs` and
--              `AlertableReturn`; Apc/Waits has the wait imports as a whole.
--   Files      WoSRecomp/kernel/file.cpp: NtCreateFile, NtQueryInformationFile, NtSetInformationFile and NtReadFile,
--              over the C library's streams as a parameter.
--   Delay      WoSRecomp/kernel/system.cpp: the system time and KeDelayExecutionThread.
--   Input      WoSRecomp/kernel/input.cpp: the controller imports. The host's XInput is a parameter.
--   Pcr        WoSRecomp/kernel/pcr.cpp: the block that a thread reads through r13, and its ticker.
--   Screen     WoSRecomp/kernel/video.cpp: the video mode, the graphics interrupt callback, swaps and a turn of
--              `VblankThread`.
--   Format     WoSRecomp/kernel/format.cpp: `FormatGuest`; Format/Calls has sprintf and _vsnprintf of
--              WoSRecomp/kernel/debug.cpp.
--   Paths      WoSRecomp/kernel/file.cpp: `ReadObjectName` and `ResolveGuestPath`.
--   Tls        WoSRecomp/kernel/thread.cpp: the KeTls imports.
--   Strings    WoSRecomp/kernel/rtl.cpp: RtlMultiByteToUnicodeN, RtlUnicodeToMultiByteN, RtlInitAnsiString.
--   Present    WoSRecomp/gpu/present.cpp: what a frame shows, and the presenter's start and end; and the choice of a
--              front buffer in VdSwap of WoSRecomp/kernel/video.cpp. Present/Life has what a process does with it.
--   Loader     WoSRecomp/main.cpp: the mapping of sections, the function table, the entry point; Loader/Pages
--              has the committing of guest pages, and how threads interleave in it.
--   Census     WoSRecomp/kernel/import_log.cpp: the import log and the table of call sites; with them the census of
--              waits of WoSRecomp/kernel/sync.cpp and of alertable waits of WoSRecomp/kernel/file.cpp, and what the
--              heartbeat of WoSRecomp/main.cpp prints of two snapshots of the log.
--   Audio      WoSRecomp/kernel/audio.cpp: the audio imports.
--   XexImage   the sections of a program's image, as the tool and the loader see them, and the bytes behind
--              them (`backedSize`).
--   XexInfo    tools/xex_info/main.cpp: the function extents that `fixSwitches` declares,
--              and the search of `findHelpers`. XexInfo/Pdata has `readPdata`, XexInfo/Disasm the first
--              pass of `disasm`, and XexInfo/Listing the lists of `fieldRefs` and of stored pointers.
--   Base       shared tests, lists, maps, words, masks, alignments and sorting. Tests has the theorems at
--              concrete inputs.
--
-- How they interact: RegisterObject takes a block from the heap for each object; an import finds its
-- object by handle or guest pointer and changes it in place; the command processor reads the ring through the
-- loads of Guest, bounds it by the physical block that Phys knows, runs its packets, and publishes how far
-- it has read. NtReadFile queues a call on its thread, which the next wait or delay of that thread
-- delivers before it waits; the guest's recompiled functions, which such calls and the display's
-- callback run, are parameters.
--
-- Choices. Numbers are native natural numbers; each cast and wrap of the source is written as a remainder.
-- Memory is a function from addresses to bytes. Whether the host commits a range is an argument of each
-- allocation. `ExecutePackets` runs on a turn of fuel for each word of the buffer, which is enough for buffers
-- short of the 32-bit range, and its recursion on the levels left below the depth limit of four. The capacity
-- doubles on 31 turns of fuel, from 1 past 2 ^ 30; the scans of the tool have a turn for each instruction in
-- their 32 KiB, the pass of `disasm` a turn for each instruction that the source lets it read, and the lists
-- of the tool a turn for each word of a section. An import that blocks returns none. A blocking wait is
-- looked at when it ends; Events/Runs puts waits among the operations of other threads, and WaitAny splits
-- them into atomic steps.
--
-- A guest format has a turn of fuel for each of its bytes; its host conversions are a parameter.
--
-- Not modelled: what is printed and what only limits printing; the window's messages; of the program's
-- entry, the reservation of memory and the crash report; the probes into one game's data; of the analysis
-- tool, what prints imports and stubs; the host's image parser, file system, clock, C library, graphics
-- device and threads, and the recompiler's own libraries, which are not part of the repository.
pub mod Apc
pub mod Base
pub mod Files
pub mod Format
pub mod Guest
pub mod Heap
pub mod Input
pub mod Loader
pub mod Pcr
pub mod Present
pub mod Census
pub mod Audio
pub mod Phys
pub mod Pm4
pub mod Packets
pub mod Ring
pub mod Delay
pub mod Events
pub mod WaitAny
pub mod Objects
pub mod Sync
pub mod XexImage
pub mod XexInfo
pub mod Paths
pub mod Threads
pub mod Tls
pub mod Screen
pub mod Sections
pub mod Strings
mod Tests
