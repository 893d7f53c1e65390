-- ===== src/Lib.antt =====
-- ZNNext: the kernel module that records execs, and the loader that the injector puts into processes.
--
-- The parts, with the file that models each:
--
--   Kpm        kpm/src. The kernel module keeps a ring of the last 64 execs. Kpm/Ring.antt has the ring,
--              its writer `znn_note_exec` and the reader `znn_channel_write_records`; Kpm/Channel.antt
--              the hook on `prctl` that serves it; Kpm/Control.antt the control call `read [n]`;
--              Kpm/Format.antt the text of a record; Kpm/Lifecycle.antt loading and unloading. The
--              static variables are the record `Znn`. The kernel's functions, its memory and the copy to
--              user space are the record `Kernel`, and KernelPatch's hooks the record `KernelPatch`: both
--              are arguments. User memory is a function from addresses to bytes.
--   Boot       loader/src/module/plan.cpp and loader/src/ipc/plan.h against injector/src/plan.rs. The
--              injector encodes the boot plan (Boot/Plan/Encode.antt), the loader parses it
--              (Boot/Plan.antt). Reading behind the readable bytes is the outcome `fault`.
--   Hook       loader/src/hook, loader/src/config/hooks.cpp and loader/src/api/hook.cpp. Hook/Engine.antt
--              has the engines, their names and their selection; Hook/Dispatch.antt the inline hooks with
--              the set of claimed addresses; Hook/Dispatch/Race.antt calls by several threads, as steps;
--              Hook/Plt.antt the PLT hooks and the mapping that they are for.
--              What a build for a processor leaves out is a test on `Arch`. Hook/Backend.antt has the
--              backends, loader/src/hook/backend: Lsplt, Plti, Bytehook and Xhook for PLT hooks, And64 and
--              Inline for inline hooks, and the promise of a PLT engine in Hook/Backend/Contract.antt. The
--              hooking libraries are parameters.
--   Elf        loader/src/utils/elf_util.cpp: the entries of /proc/self/maps and the search for a
--              library's load address (Elf/Maps.antt), and the search in the dynamic symbol table of a
--              loaded library (Elf/Dynamic.antt), whose memory is a parameter. Elf/Image.antt has the
--              reading of ELF headers, Elf/Image/Symbols.antt the parsing of sections, symbols and
--              .gnu_debugdata, and Elf/Image/Open.antt the constructor and the lookups of `ElfImage` with
--              loader/src/api/symbols.cpp. A read outside the readable bytes has no result.
--   Hyos       loader/src/hyos: the runtime that tells modules of apps that the HYOS spawner forks.
--              Hyos/State.antt has its state; Hyos/Runtime.antt registration and delivery; Hyos/Hooks.antt
--              the installation of its hooks; Hyos/Events.antt what happens in a process, as a sequence
--              of events; Hyos/Capture.antt threads that capture and deliver a name, as steps. What a
--              hooked function returns is part of the event.
--   Debugdata  loader/src/utils/debugdata.cpp and loader/src/config/debugdata.cpp: unpacking
--              .gnu_debugdata. The loops run on fuel, and nine rounds are enough: the output doubles from
--              256 KiB up to 64 MiB. The decoders are parameters.
--   Companion  loader/src/ipc/channel.cpp and loader/src/api/companion.cpp: how a module reaches its
--              companion. A function takes the answers of its system calls, for a loop the list of its
--              rounds' answers, and gives the descriptors that it opened and closed. A loop that waits
--              for a peer ends with the list, as its deadline ends it.
--   Loader     loader/src/entry.cpp (Loader/Entry.antt), loader/src/module/loader.cpp and
--              loader/src/utils/dlext.cpp (Loader/Modules.antt), loader/src/process/self.cpp
--              (Loader/Process.antt), loader/src/api/table.cpp and loader/src/api/runtime.cpp
--              (Loader/Api.antt): the injector calls the entry with the plan, which sets the engines and
--              the runtime and calls each module with its handle and its table of the API.
--   Probe      injector/bpf/exec.bpf.c: the event that the eBPF probe submits for an exec.
--   Text       `std::to_string`, and texts put together around a separator.
--   Base       Numbers, lists and Boolean tests that the parts share.
--
-- Conventions. Machine integers are natural numbers whose wrap-around is written out (`% 2 ^ 64`), signed
-- ones are `ℤ`. Pointers are addresses, 0 for a null pointer. A C string is its bytes without the NUL. The
-- loops of the kernel module run as many rounds as the source computes before it enters them, so no fuel
-- is needed there; the digit loop has the 20 rounds that its buffer has room for, which 64-bit numbers never
-- exceed.
--
-- Not modelled: log lines; vendored libraries; the injector, but for the encoder of the boot plan and the
-- eBPF probe; the web interface; the layout of 32-bit ELF files; and what a module does when it is called.
pub mod Base
pub mod Kpm
pub mod Boot
pub mod Hook
pub mod Elf
pub mod Hyos
pub mod Debugdata
pub mod Companion
pub mod Loader
pub mod Probe
pub mod Text
