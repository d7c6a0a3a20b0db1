-- ===== src/Lib.antt =====
-- FDSStick: a program that copies disks of the Famicom Disk System between files, the flash memory
-- of a USB adapter and a disk drive.
--
-- A disk side is a list of blocks: the block 1 (0x38 bytes), the block 2 (2 bytes), and for each file
-- a block 3 (its header of 16 bytes) and a block 4 (its contents). An .FDS file holds the blocks one
-- behind the other, a Game Doctor file two more bytes behind each. The flash memory holds the disk
-- as it is on the medium: each block has a gap before it, a gap end, and a checksum behind it. A
-- drive gives and takes pulses: the distance of two changes in direction is one, one and a half or
-- two bits long, which the program calls 0, 1 and 2. This library covers these three forms of a disk
-- and the conversions between them, which are in fds.cpp, and the way of the bytes to the adapter.
--
-- Crc.antt          `calc_crc`. Linear: the register is linear; Check: what the checksum detects.
-- Bin.antt          `copy_block`, `fds_to_bin` and `gameDoctor_to_bin` (`game_doctor_to_bin`). Layout:
--                   a disk and its forms; Block, Files, Convert, Copy, Disk: what is written;
--                   Safety, Bounds: any input.
-- Raw.antt          `raw_to_raw03`, `findFirstBlock` (`find_first_block`), `block_decode` and
--                   `raw03_to_fds`. Classes: the measured times; Pulses: the pulse code bit by bit;
--                   Image, Bits: a buffer as bits; Step, States, Turn, Loop: the decoding loop; Gap,
--                   AtGap, First: the scans; Finish, Decode: one block; Stream, Files, Rounds, Side,
--                   Recover: a whole side; RoundTrip: from a file to pulses and back; Onwards, Ends:
--                   any pulses.
-- Raw/Encode.antt   `bin_to_raw03`. Bit, Lay: what it writes.
-- Device.antt       The reports of device.cpp, with the calls of hidapi as an interface (`Hid`). Reports:
--                   what a write sends; Packets: what a read takes; Ends: no call is stuck.
-- Spi.antt          The commands of spi.cpp over these reports. Chunks, Sram: long data in reports;
--                   Pages: the pages of the flash; Clock, Waiting: the clock, and the commands that
--                   wait; Ends: the others.
-- Transfer.antt     `writeDisk` (`write_image`), `writeDisk2` and the reading loop of `FDS_readDisk`.
--                   Mfm: the expansion of the bits; Reading: the packets read; Ends.
-- Open.antt         `dev_open` and `dev_close`. Size: the chips that are known.
-- Os.antt           Files, memory, the clock and the keyboard, as an interface (`Os`).
-- Dump.antt         `looks_like_file_end`, `crc_detect`, `mark_gap_start` and `nextGapEnd`. Verify:
--                   `verify_block`; Convert: `raw03_to_bin`, with its passes; Edges, Gaps: where files
--                   and gaps end; Convert/Ends, Convert/Size: what it leaves on any pulses.
-- Disks.antt        `loadFile`, `writeBin`, `FDS_writeDisk`, `FDS_convertDisk`, `FDS_convertDiskraw03`,
--                   `FDS_bintofds` and `FDS_readDisk`. Sides: the sides of a file; Convert: a file of
--                   one side; Decoding: an image; Each, Ends: any file.
-- Slots.antt        `chksum_calc`, `FDS_writeFlash`, `FDS_list`, `FDS_readFlashToFDS`, `spi_dumpFlash` and
--                   `spi_writeFile`. Header, Path: a slot as it is written and listed; Listing: a game
--                   in several slots; Writing, Ends.
-- Firmware.antt     `FW_writeFlash`, `DetectLoader`, `WriteLoader` and `firmware_update`. Words, Checksum:
--                   the image of the firmware; Loader: the mark of the loader; Ends.
-- Main.antt         `main` of main.cpp with its options. Exits: how the program ends.
-- Sample.antt       A machine for the examples.
-- Base.antt         Booleans, lists, bits, buffers and outcomes for all of them.
--
-- A buffer is a list of bytes, a pointer into it an index. Every access is checked: an access outside
-- is the outcome `fault`, which C leaves undefined. A function that writes to a buffer returns it. An
-- `int` stands for itself as a natural number, since none of the sizes comes near its bounds; where
-- the program subtracts below 0 or uses -1, the model says what happens instead. Casts to 8, 16 and
-- 32 bits are written out.
--
-- A loop that has no bound of its own runs on fuel, and `stuck` is its outcome without any. The loops
-- get enough: as much as the input is long for the conversions from a file, one more than the pulses
-- for those of `block_decode` and for the files of `raw03_to_fds`, and 33 rounds for each start in
-- `findFirstBlock`, whose pattern has 32 pulses.
--
-- The sending and reading loops get one round more than they have bytes. The wait for the flash
-- chip is bounded by the clock only, so its number of rounds is an argument. The clock
-- (Spi/Clock.antt) counts milliseconds, may give the same value many times over and may be coarse, and
-- the rounds that are enough for the longest wait of 2000 ms depend on how fine a part of a
-- millisecond one reading takes.
--
-- The commands use each other as in the program: `main` (main.cpp) chooses one by the option and
-- gives it the arguments; those on files and disks (fds.cpp) load a file, convert each side and send
-- it through device.cpp, or the other way round; those on the flash chip go through spi.cpp.
--
-- Device.antt keeps the static report buffer and the sequence number; what hidapi, the clock, the
-- files and the keyboard read and change is a type of its own, which their calls take and return. A
-- `Hid` answers a call with a success and, for a read, with the bytes put into the buffer. An `Os`
-- opens a file for reading with its bytes, and keeps a file that is written when it is closed; its
-- memory is never short. The numbers of slots and addresses on the command line may be negative, so
-- they are 32-bit words in two's complement, and `sscanf` is an argument of `main`. The other static
-- variables, of `verify_block`, are 0 at the start of the one command that a run of the program has.
--
-- Not modelled: the messages, but for the entries of `FDS_list` and the remarks of `verify_block`;
-- `hexdump` and `dev_printLastError`, which only print; the branches of `FDS_writeFlash` and of os.cpp
-- for Windows; the calls of the operating system behind os.cpp; `readStatus` of spi.cpp, which nothing
-- calls; what is commented out; hidapi, another project's library.
pub mod Base
pub mod Crc
pub mod Bin
pub mod Raw
pub mod Device
pub mod Spi
pub mod Transfer
pub mod Open
pub mod Os
pub mod Dump
pub mod Disks
pub mod Slots
pub mod Firmware
pub mod Main
pub mod Sample
