-- ===== src/Lib.antt =====
-- P2000T Cartridge Studio (src/src): the program that reads and writes the flash of a programmable
-- cartridge over a serial port, and installs the firmware of the cartridge.
--
-- The parts. A worker thread (FlashThread, ReadThread) runs one job: it opens the port of a
-- SerialInterface, identifies the chip, erases, and programs or reads blocks and banks. SerialInterface
-- turns each step into commands of eight bytes with echo, status, payload and CRC, and waits for the
-- answers with timeouts. It reaches the port through SerialTransport, which a QSerialPort or, in the tests,
-- an emulated cartridge implements. The window compares what it reads back with what it wrote, and checks
-- a firmware file and its version before an update. The preparation tool writes the first firmware and its
-- bootloader with AVRDUDE.
--
-- The files:
--   Base           Boolean tests, lists over the native numbers, bit operations, integers
--   RomSizes       src/src/romsizes.h
--   Bytes          byte sequences: ranges, overwriting, comparison
--   Text           literals, and numbers in hexadecimal as the commands contain them
--   Crc            crc16_xmodem of src/src/serial_interface.cpp, crc32 of src/src/firmwareupdater.cpp
--   Effects        a state monad with exceptions, in which the code with side effects is written
--   Transport      src/src/serial_transport.h, the interface, as a record of operations
--   Serial         src/src/serial_interface.h; Serial/Wire has the methods that move bytes (open_port,
--                  close_port, write_bytes, wait_for_response, flush_buffer), Serial/Commands the others
--   Emulator       src/tests/support/emulated_serial_transport.cpp, an implementation of the interface.
--                  Its children relate a session of SerialInterface with it to the specification
--                  Cartridge (contents, chip, identity): Session and Exchange for bytes and echoes,
--                  Answers for what the emulator answers, Protocol and Burn for the commands, Connect for
--                  opening and closing, Erased for erased regions
--   Worker         src/src/ioworker.h; Worker/Flash is src/src/flashthread.cpp, Worker/Read is
--                  src/src/readthread.cpp and src/src/cartridgereadthread.cpp; Blocks, Prepared, FlashLoop,
--                  FlashRun, Flashing and Endings, ReadLoop and ReadRun hold what is proved of complete runs
--   Firmware       Hex, Image, Memory and Accepted: validate_application_hex of
--                  src/src/firmwareupdater.cpp; Compatibility and Releases:
--                  src/src/firmwarecompatibility.cpp
--   Device         the firmware of the cartridge. Protocol is firmware/protocol.c and firmware/protocol.h,
--                  with its Invariant, Silence and Framing of commands; Main is firmware/main.c, and
--                  Main/Sending is about the stream of a bank; Agreement compares the parser with the
--                  emulated cartridge. Sst39sf020 is firmware/sst39sf020.c, with Update for programming
--                  and erasure; Rest and Safety are about the states of the pins, Cycles, Writes and Inside
--                  about the bus cycles that they make
--   Downloader     src/src/filedownloader.cpp as a machine over events, and its Invariant
--   Installer      tools/bootloader-installer/src/main.cpp: the checks of the combined image, the fuses and
--                  the connection (Connection); System has the search for AVRDUDE and its runs, Operation
--                  the command line, the menu and a whole operation, over an operating system that is a
--                  parameter; Success and Safety are about whole operations
--   LogBuffer      src/src/logbuffer.h and src/src/logbuffer.cpp
--   BankSelector   the selection and the DIP switches of src/src/bankselector.cpp
--   Examples       concrete runs
--
-- The model. A byte is a native number, a message an exception value with the numbers that its text shows.
-- Signals are recorded in the order in which they are emitted. An interruption request may come at any
-- time: `interrupted n` is what the n-th poll of isInterruptionRequested returns, and is arbitrary. The
-- clock is an operation of the transport; the emulated cartridge takes it as an arbitrary function of the
-- number of looks. The loops of SerialInterface that wait run on fuel, and return the exception
-- out_of_fuel of the model's own when it is used up; the theorems about the emulated cartridge say that
-- they return with fuel 2 or more (`enough fuel`), so that no loop goes on. The loop of
-- process_write_buffer takes the length of the buffer as fuel, which each round shortens.
--
-- On the other side of the line, the main loop of the firmware feeds each byte to the parser, which calls
-- the driver of the flash; the driver sets pins. The flash is a parameter there: what PIND reads is an
-- arbitrary function of all that the driver did before. Its polling loops are bounded by their counters
-- of 100 and 1000 attempts, and need no fuel.
--
-- Not modelled: the window and its dialogs, the Qt serial port, the checksum of a release, the output of
-- messages, the set-up of the microcontroller, its USB descriptors and its bootloader. The theorems about
-- sessions assume an emulator that injects no fault and returns all buffered bytes at once.
pub mod Base
pub mod RomSizes
pub mod Bytes
pub mod Crc
pub mod Effects
pub mod Transport
pub mod Text
pub mod Serial
pub mod Emulator
pub mod Worker
pub mod Firmware
pub mod BankSelector
pub mod Device
pub mod Downloader
pub mod Installer
pub mod LogBuffer
pub mod Examples
