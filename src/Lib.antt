-- ===== src/Lib.antt =====
-- A verification library for the concentrator, a Linux board that collects the readings of heat
-- meters and valves, keeps them in files until a server has them, serves card terminals and shows
-- its state on a small display.
--
-- Common.* has the numbers, lists, memory and files that the other modules share. Numbers are the
-- native ones; a conversion to a narrower C type is written out as `% 2 ^ w`, and the target has
-- 32-bit `int`, `unsigned int`, `size_t` and `off_t`, little-endian.
--
-- Cbuffer (src/cbuffer.c, src/cbuffer.h): the ring of fixed cells between threads, as a record of
-- the C fields; its storage is a function from offsets to bytes. Cbuffer.Queue relates it to the
-- bounded queue Cbuffer.Fifo, with counters that wrap at 2 ^ 32.
--
-- Sbtree (src/sbtree.c, src/sbtree.h): the size-balanced tree as a data type with stored sizes. A
-- null pointer that is followed is an outcome. `sbtree_maintain` runs on fuel, which bounds the
-- depth of its calls: fuel above the sum of all subtree sizes is enough, since each rotation
-- lowers that sum, and the sum is at most the square of the number of nodes.
--
-- Logqueue (src/logqueue.c): the queue of messages in three files. A file (Common.File) is its
-- bytes and a position; how many bytes a `write` takes is the environment's choice and an argument.
-- Logqueue.Contents says which messages the files hold.
--
-- Logdb (src/logdb.c, src/logdb.h): records of a key and data in a file, with their places in an
-- index file and in a tree of Sbtree, whose fuel is that of `sbtree_insert`.
--
-- Lcddrv (src/lcddrv.c, src/bdk_font.h): an operation of the display driver is the list of the
-- levels that it puts on the pins. Lcddrv.Receiver reads such a list as the panel's serial port
-- does, so that a statement can say which bytes arrive.
--
-- Utils (src/Utils.cpp, src/CRC32.h): Utils.Time has `gmtime_new` and `mktime_new`, where the loop
-- over the years runs on fuel and the number of days is enough; Utils.Crc the checksums, whose
-- tables Utils.Polynomial compares with the division; Utils.Bytes and Utils.Hex the conversions.
--
-- Portal (src/CPortal.cpp): the loops that send the queued messages to the server, on Logqueue and
-- Utils.Crc. Each turn takes the time, the answer of `GPRS_Send` and the room on the disk from a list;
-- the list bounds the turns, and the outcome says when it was the list that ended the loop.
-- Portal.Exchange has `GPRS_Send`, on the list of the modem's answers, which ends the model when it is
-- too short: nine and two for each stray packet are enough. Portal.Control has the registration and the
-- heart beat, Portal.Commands `GPRS_Receive`.
--
-- Timers (src/CTimer.cpp, src/CTimer.h): the three timers, on a list of the clock's readings. The
-- conversion of a date, which the C library makes, is a parameter.
--
-- Cardhost (src/CCardHost.cpp, src/CCardHost.h): the line to the card terminal. Cardhost and
-- Cardhost.Answer have the two halves of the loop of `Run`, on a list of turns that says how many
-- bytes the port has or takes in each; Cardhost.Command has `ParseAndExecute` and the handlers,
-- Cardhost.Answer the acknowledgements, which are pushed on a ring of Cbuffer. Cardhost.EndToEnd
-- goes from a request to the bytes of its answer.
--
-- Csv (src/csvparser.cpp): the parser of a line of fields, by recursion on its bytes.
--
-- Valve (src/CValveMonitor.cpp): the terminal's commands on their way to the valves, on rings of Cbuffer
-- whose locks are part of the state, and the answers on their way back, to the host of Cardhost; its
-- child Register holds the registration of the valves that answer a broadcast and the broadcasts,
-- Registered what it makes of the users. A call that waits for a lock that nobody releases is an
-- outcome of its own.
--
-- Heat (src/CHeatMonitor.cpp, src/CHeatMonitor.h): the heat meters. Heat.Port has `SendCommand` and
-- `WaitCmdAck` on a list of the port's turns, of which three count; Heat the state, `GetHeatData` on a
-- list of exchanges and `ParseData`; Heat.Upload `SendHeatData`, Heat.Info `GetHeatNodeInfoList`.
-- The timer is that of Timers.
--
-- Serial (src/CSerialComm.cpp): `ReadBuf` with flags, on a list of the pieces that the port brings.
-- Forwarder (src/CForwarderMonitor.cpp, src/CForwarderMonitor.h): the forwarders, their valves as a
-- table of Common.Table, and a command with its answer over Serial; Forwarder.InfoTask has the lock
-- and the timer of what they have told, on the readings of the clock in the turns of `Run`.
--
-- Valve.Reading (src/CValveMonitor.cpp) has the turns of `Run` that read the port: the bytes in `ack`, the search for
-- the next answer, and the answers that go to `ParseAck`. The loop over them has the number of bytes as fuel, since
-- each turn takes some; Valve.Cutting, Valve.Reassembled, Valve.Recovered and Valve.Stuck say what comes of it.
--
-- The makefile defines NDEBUG, so the `assert`s are not part of the program; a lock around a call
-- makes the call one step.
--
-- Not modelled: threads, the locks but those of Valve and Forwarder, and sockets, which are the
-- system's; the libraries below lib/ and the reader of configuration files (src/CINI.cpp and its
-- parts), which are other projects' and only called; the set-up of the serial port
-- (src/CSerialComm.cpp); and, left for an extension, `dbopen` of src/logdb.c, `display_func` of
-- src/lcddrv.c, the rest of src/CValveMonitor.cpp, src/CForwarderMonitor.cpp and src/Utils.cpp, the
-- modem (src/CGprs.cpp) and the loop of src/CPortal.cpp.
pub mod Cardhost
pub mod Cbuffer
pub mod Common
pub mod Csv
pub mod Forwarder
pub mod Heat
pub mod Lcddrv
pub mod Logdb
pub mod Logqueue
pub mod Portal
pub mod Sbtree
pub mod Serial
pub mod Timers
pub mod Utils
pub mod Valve
