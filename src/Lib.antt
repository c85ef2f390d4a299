-- ===== src/Lib.antt =====
-- Rignite, a UEFI boot loader: the reader and the writer of its configuration, its Btrfs reader,
-- the checks and choices before an image is started, its menu and its log, the program that runs
-- them, the test tool that receives disk images over USB, and the tests of passing
-- device files.
--
-- The parts, and where their code is:
--   Common   what the parts share: lists, texts and byte strings measured by native numbers, and
--            the results of calls, which are `ok`, `err`, or a fault: a panic, an access of memory
--            outside its object, or a loop out of fuel.
--   Rbc      src/rbc.rs and rbc_cli/src/main.rs. Tag has the codes, View the `ConfigView` and its
--            iterator, Loader the `OwnedConfig` and `verify_and_load`, Writer the serialization.
--            Validate, Atoms, RoundTrip, Sections, Sizes, Configured and Viewable hold the
--            proofs.
--   Btrfs    src/fs/btrfs.rs. Key is `BtrfsKey`; Layout and Decode are the packed structures at
--            their byte offsets; Volume is `logical_to_physical` and `read_logical`; Mount is
--            `new`, `load_sys_chunks` and `load_chunk_tree`; Search is `search_slot` and its users;
--            Walk, File and Dir are `read_file` and `find_file_in_dir`; RootFiles is
--            `list_root_files`. Tree says what a B-tree on the device is. Reads, SysChunks,
--            SearchTree, Assemble, WalkTree (the walk over any tree, for any scan of its leaves),
--            ReadLength, DirTree, Extents and FileTree hold the proofs, and Lookup says what the
--            lookups give on a volume that is described by its trees.
--   Boot     src/boot/mod.rs. Kernel is `validate_kernel_pe`, Initrd is `load_file2_initrd`, Scan is
--            `scan_dir_recursive` and `try_boot_fat_fallback`; Run has the events of a boot, Image
--            is `install_initrd_protocol`, `boot_from_memory` and `boot_efi_app`, DevicePath the
--            device path that the last puts together, Linux is `boot_linux_from_drive`. Order says
--            which events may follow which. Accepts, Target, NodeList, Order, Checked, Started and
--            Startup hold proofs.
--   Main     src/main.rs. Loop is `efi_main` after its initialisation; Safety and Unattended hold
--            proofs.
--   Menu     src/main.rs. State is `get_menu_items`, Keys the handling of a key, Session its
--            loop over keys, Splash the loop of the splash screen; Safe, Wrap, Patience, Exit and
--            Live hold the proofs.
--   HostTool host_test_tool/src/main.rs: Device and Transfer are `handle_accessory_mode`,
--            Handshake is `perform_aoa_handshake`; Script, Magic and Received hold proofs.
--   Seat     seat-fdpass-smoke/src/main.rs. Prog has programs that ask a kernel, and how they are
--            proved; Device the requests to a card and an input device, Multi is `multi_session`
--            with its sessions, Single is `single_session` and `main`. Kernel is what is documented
--            of the two devices. Sessions, Switch, Stuck and Smoke hold proofs.
--            For seat-wirebus-vm/src/bin/seat-client.rs Io has programs with `?`, Client is
--            `render_frame`, ClientMain is `main`, Screen is what is documented of a card, and Fields,
--            Frame and Render hold proofs.
--   Slots    src/abctl.rs: `select_and_begin`, over an interface that stands for the crate
--            runix_bootctl; Boots has the law that a written block is read back, and a proof.
--   Logger   src/logger.rs.
--   Display  src/graphics.rs: `clear` and `draw_iter`; Resolution is `set_highest_resolution`,
--            Flush is `new` and `flush`, and Bounds holds proofs.
-- The modules whose names end in Example or Examples apply the theorems at concrete inputs.
--
-- The menu asks the Btrfs reader for the label of a drive and the scan for the files of a volume;
-- the loader of the configuration reads what the writer writes. The program finds the default drive
-- by the Btrfs reader, asks the splash screen, and boots by the functions of Boot, which read the
-- kernel through the Btrfs reader or scan the volume.
--
-- Numbers are the native ones; a sum or product of `u64` is reduced by 2^64 where it can wrap, as in
-- the release profile. Raw pointers into a buffer are offsets, and a read outside the buffer is a
-- fault. The firmware's answers are arguments: the blocks of a device, the entries of a directory,
-- the results of the file protocol, the handles of loaded images, and they stay the same from call to
-- call. A boot is a run: the events that it asks of the firmware, in order, and its result. What
-- `read_bulk` gives, call after call, is a list. Arguments too are SHA-256, `to_lowercase` and
-- `from_utf8_lossy`.
--
-- The Linux kernel and the bus of the seat client are arguments too, with their replies to each
-- request. A copy of an open file in another process is the same open file. The child processes of
-- a test take their turn as soon as they are sent a message.
--
-- Fuel: the iterator over atoms moves on by four bytes a step and the loop over system chunks by 65,
-- so that the length of the bytes and the stated size are enough, and are what the code's models
-- use. The search uses one unit a level of the tree. The splash screen uses one a frame. The walk of
-- `read_file` and `find_file_in_dir` uses one for each node it visits, so that the number of nodes
-- of the tree is enough; the device path uses one for each node of the path and one more. A boot
-- hands its fuel to these.
--
-- Not modelled: the crate behind src/abctl.rs, which is an argument; drawing
-- (src/font.rs, src/logo.rs, src/icons.rs), which is output in floating-point numbers; the polling loop
-- of the host tool; the orchestrator of the seat client, which starts processes; the Android
-- application and the build scripts.
pub mod Common
pub mod Rbc
pub mod Seat
pub mod Btrfs
pub mod Boot
pub mod HostTool
pub mod Main
pub mod Menu
pub mod Slots
pub mod Logger
pub mod Display
