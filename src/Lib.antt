-- ===== src/Lib.antt =====
-- A verification of the shadPS4 machine's program loader, hw/i386/shadps4-loader.c and
-- hw/i386/shadps4-loader.h: the code that reads a PS4 executable or module (an ELF file, plain or
-- in a SELF container), puts its segments into guest RAM, reads its dynamic data, relocates it, and
-- links the loaded modules with each other and with the synthetic image of the HLE; of the front
-- end of its GPU, hw/i386/shadps4-gpu.c and hw/i386/shadps4-gpu.h; of the sound in
-- hw/i386/shadps4-io.c and hw/i386/shadps4-io.h; and of the real-time clock among its guest
-- services, hw/i386/shadps4-hle.c and hw/i386/shadps4-hle.h.
--
-- Parts and files. Loader/Types holds the structures of the code, field by field, and one error for
-- each message. Loader/Range is shadps4_range_valid, shadps4_add_valid and
-- shadps4_add_signed_valid. Loader/EncodeId is shadps4_encode_id. Loader/HostFile is
-- ShadPS4HostFile, its four operations and shadps4_read_exact. Loader/Memory is the interface to
-- guest RAM. Loader/SelfMap is shadps4_self_segment_offset, shadps4_self_range_offset and
-- shadps4_program_offset. Loader/Dynamic is shadps4_parse_dynamic, shadps4_dynamic_identity and
-- shadps4_symbol_identity. Loader/Relocate is shadps4_relocation_target and
-- shadps4_apply_relocations. Loader/Process is shadps4_process_dynamic, and Loader/Link is
-- shadps4_symbols_match, shadps4_prefer_hle_heap_provider, shadps4_link_modules and
-- shadps4_image_cleanup. Loader/Load is shadps4_load_module: its headers (Headers), the checks on
-- one program header (Segments), the loop over them with shadps4_copy_segment (Loop), the checks
-- behind the loop (Finish), and the whole with shadps4_load_image (Module). The files below these,
-- named for what they prove, hold the theorems; Loader/Tests applies each to concrete data. Base is
-- what they share: lists under native indices, little-endian bytes, signed numbers, and fallible
-- code. Gpu is hw/i386/shadps4-gpu.c for a build without CONFIG_WIN32. shadps4_gpu_set_registers is
-- in Gpu/Registers, shadps4_gpu_parse_pm4 in Packets, shadps4_gpu_flatten_pm4 in Flatten,
-- shadps4_gpu_guest_rw in Guest, shadps4_gpu_copy_guest and shadps4_gpu_execute_pm4_memory in
-- Execute, the structures with init, reset, cleanup, finish, the vertical blank and the status in
-- State, shadps4_gpu_submit_commands and shadps4_gpu_submit in Submit, shadps4_gpu_map_queue,
-- shadps4_gpu_unmap_queue and shadps4_gpu_ding_dong in Queues, shadps4_gpu_display_tiled_offset in
-- Tiling, shadps4_gpu_flip in Flips; Calls is all of these in any order, as a step relation. A
-- Device is the GPU's state and guest memory. A doorbell reads the words of a ring and submits
-- them, a submission flattens, validates and executes them. Its loops over a buffer have as many
-- rounds as the buffer has words, enough because a packet takes one word at least; nested buffers
-- are bounded by the depth of the source. Io is the sound of hw/i386/shadps4-io.c: its byte arrays
-- in Io/Queues, the calls in Io/Audio, and all of them in any order in Io/Audio/Calls. The loop of
-- shadps4_io_audio_out has as many rounds as bytes are queued, enough because a round consumes one
-- byte at least. The loader, the GPU, the sound and the clock share no state but guest memory.
--
-- Rtc is every service of the real-time clock in hw/i386/shadps4-hle.c. Rtc/Dates is
-- ShadPS4RtcDateTime with its checks, Rtc/Days the conversions between days and dates, Rtc/Ticks
-- those between dates and ticks, Rtc/Memory the reads and writes of guest memory, Rtc/Clocks the
-- four clocks with shadps4_rtc_now, Rtc/Shift shadps4_rtc_add and the moves by months and years,
-- Rtc/Services the services that convert, Rtc/Text the printing and parsing with the conversions of
-- sscanf that they use, and Rtc/Calls the dispatch by number. A service reads guest memory,
-- converts, and stores its result with one write; an int64_t may be negative and is a ℤ, the offset
-- of a clock is the pattern of its 64 bits. The loops over text run on the text, those over digits
-- on the width of the field.
--
-- How state corresponds. A function that changes no state returns a Result. One that changes guest
-- memory, a host file or an image takes that state and returns an Outcome, which keeps the state
-- reached on failure too: LoadState is guest memory and the image's description, LinkState guest
-- memory and all images, World the host and guest memory. 64-bit sums keep their wrap-around where
-- the source does not check them. A read or write outside a buffer, undefined in C, is the error
-- `fault`.
--
-- Bounds and fuel. A loop over a table runs on the number of its rounds, computed from its size as
-- the `for` statement does. The loop of shadps4_read_exact has as many rounds as bytes are wanted,
-- enough because a read that neither fails nor ends the file yields one byte at least.
--
-- Parameters. Host files (lseek, read, and the brokered storage of the host application) and guest
-- RAM (QEMU's address_space_write, address_space_set and address_space_read) are records of
-- operations; IsRegular and IsMemory state what is documented of them. What flattening reads of
-- guest memory by a CPU (cpu_memory_rw_debug) is a function to the words read. Elsewhere in the
-- GPU, and in the clock, it is the record GuestMemory of a read, a write and the virtual clock, and
-- IsGuest states what is documented of it. The audio backend is the record Backend, and IsBackend
-- states that a write consumes a prefix of what it is given. g_path_get_basename is a function
-- argument. What qemu_clock_get_ns(QEMU_CLOCK_REALTIME) returns during a service is an argument of
-- it. Numbers of the ELF format that elf.h defines are written out.
--
-- Not modelled: log lines, among them those under SHADPS4_LINK_TRACE; of hw/i386/shadps4-gpu.c what
-- is compiled with CONFIG_WIN32, which calls the Direct3D backend; of hw/i386/shadps4-io.c the
-- pads, realize and unrealize; and the rest of the repository, among it the other guest services
-- (hw/i386/shadps4-hle.c), the machine (hw/i386/shadps4.c), the Direct3D backend, and QEMU's own
-- files.
pub mod Base
pub mod Gpu
pub mod Io
pub mod Loader
pub mod Rtc
