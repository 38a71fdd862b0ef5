-- ===== src/Lib.antt =====
-- A model of tew, a user-mode emulator for 32-bit Windows programs, and what is proved of it.
--
-- tew runs guest code on a native CPU core and serves the guest's system calls by Python handlers. A
-- handler reads its arguments from the guest's stack, changes the shared state (CRTState of
-- tew/api/_state.py) and guest memory, leaves a result in EAX and pops its arguments. The model has
-- each handler as an action on a `World` (registers, memory, shared state, native state) that returns
-- or raises (Base/Actions), with the whole of the handler, its early returns and halts included.
--
-- State, State/Native: the shared data, a field for each attribute of CRTState that is used; libcpu.so
--   (the git submodule cpu/), the host's os and select are the parameter `Native`.
-- Machine, Machine/Keeps: tew/hardware/memory_zig.py, cpu_zig.py and cleanup_stdcall of
--   tew/api/win32_handlers.py; rules for what an action keeps.
-- Heap and below: simple_alloc and simple_free of tew/api/_state.py (Heap), the Heap* handlers of
--   tew/api/kernel32_memory.py (Heap/Api), and malloc, calloc, realloc, free, LocalAlloc, LocalFree and
--   GlobalAlloc over the same blocks (Heap/Crt). Blocks are pairs of an address and a size.
-- Virtual and below: VirtualAlloc, VirtualQuery, VirtualFree of tew/api/kernel32_memory.py.
-- Kernel, Kernel/Keeps: tew/kernel/kernel.py, the poll that turns socket events into messages and
--   signalled events, and block_current_on_handles of tew/hardware/scheduler_zig.py, which calls it.
-- Sync and below: mutexes, events and waits of tew/api/kernel32_io.py. Sync/Steps has the changes of
--   kernel objects as a step relation.
-- Files and below: LockFile, UnlockFile (Files), CloseHandle and handle duplication (Files/Handles),
--   ReadFile and WriteFile (Files/Access), _llseek, _lread, SetFilePointer and GetFileSize (Files/Seek)
--   of the same file.
-- Section and below: the guest code of critical sections in tew/api/kernel32_sync.py, an instruction at
--   a time, by any number of threads (Section), its invariant and its runs (Section/Invariant,
--   Section/Exclusion), and the Python handlers and hooks around it (Section/Hooks).
-- Ini and below: tew/api/ini_file.py. A text is its code points, below 256 as latin-1 has it; Ini has the
--   parser, the printer and the changes, Ini/Disk the file, whose failures are a parameter.
-- Loader and below: DLLLoader of tew/loader/dll_loader.py. Loader has its address space, Loader/Imports
--   what a DLL exports and where an import is found, Loader/Images load_dll over a `Process`, which is the
--   loader's state and a World. A nested load of an import takes one round of fuel; an exhausted model
--   raises out_of_fuel, which no `except` catches. Loader/Meets, Within and Loads are rules for proofs.
-- Fs: find_file_ci of tew/fs.py over what the host's directories hold, with a round for each character of the
--   path.
-- Pe and below: the parsers of tew/pe, of a file as the list of its bytes. Pe has the relocation table,
--   Pe/Sections the section headers and tew/helpers.py, Pe/Headers the headers, Pe/Tables the imports
--   and the exports, Pe/Directories the other directories, Pe/Exe exe_file.py. Decoding a name is a
--   parameter; what only prints is left out. Loader/Disk gives the loader's files by
--   these parsers and by Fs.
-- Handlers: the table of API handlers of tew/api/win32_handlers.py and its stubs in guest memory; a
--   Python function is a number that stands for it. Handlers/Table has what a call of a name runs, and
--   Handlers/Placed the exports that are guest code.
--   Handlers/Calls has the lookups and the interrupt of a stub.
-- Patching and below: patch_iat_entry, patch_dll_iats and patch_dll_exports of tew/loader/dll_loader.py
--   and tew/loader/import_resolver.py, over a `Linker`: the handler table, the loader and a World.
-- Seh and below: tew/kernel/seh.py over a `GuestThread`, which is a World and the registers that only guest
--   code uses. Seh has the call of a handler, Seh/Dispatch the dispatch of an exception, Seh/Unwind
--   RtlUnwind. What guest code does in a batch of steps is a parameter (Core). The walks keep the set of
--   visited frames, so one round for each 32-bit address is enough; a handler's steps are limited.
-- Tls: the thread-local storage of tew/api/kernel32_sync.py.
-- Threads: CreateThread, ResumeThread, SuspendThread and GetExitCodeThread of tew/api/kernel32_io.py.
-- Windows and below: WindowManager of tew/api/window_manager.py without the places and sizes of windows; its
--   shutdown, its events and its drawing are left out. Windows has the classes, the message queue, the controls
--   and the focus, Windows/Create makes windows and dialogs, Windows/Destroy destroys them. The calls of SDL are
--   the record Sdl, and so is the loading of a control's bitmap. A control is younger than its dialog, so
--   destroy_window has a round for each handle given out. Windows/Runs has the sequences of calls.
-- Tests: concrete functions for the native library, and the theorems at concrete states.
--
-- Python's dicts are association lists in insertion order (Base/Dicts). Objects that two handles may
-- share have a place in a store. Numbers are not bounded; a wrap to 32 bits is written where the code
-- has one. Most loops of the modelled code run over a list or a count. The others have rounds, and a model
-- that has none left raises out_of_fuel: nested loads, whose rounds are bounded by the names that files
-- import; the tables of executables, by the bytes of the file; paths, by their characters; the walks of Seh
-- and the nested destruction of windows, as said above. Logging is left out. A raised exception leaves the
-- world as it was when it was raised.
--
-- Not modelled: the CPU core; the handlers of user32, graphics, sound and input; the C run-time library beyond allocation; sockets beyond their registration; path
-- translation and the opening of files.
pub mod Base
pub mod State
pub mod Machine
pub mod Heap
pub mod Virtual
pub mod Kernel
pub mod Sync
pub mod Files
pub mod Tls
pub mod Windows
pub mod Threads
pub mod Ini
pub mod Fs
pub mod Loader
pub mod Pe
pub mod Handlers
pub mod Patching
pub mod Seh
pub mod Section
pub mod Tests
