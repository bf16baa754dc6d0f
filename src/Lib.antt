-- ===== src/Lib.antt =====
-- raveloxmidi, a bridge between RTP MIDI sessions (RFC 6295, AppleMIDI) and local MIDI streams.
--
-- Datagrams and local streams of MIDI bytes are written to a ring buffer. `midi_state_send` takes
-- the bytes out, one at a time, and puts MIDI commands together in a byte buffer; each whole command
-- goes to the sender, which makes a payload of it and packs that, behind an RTP header, for every
-- connection, with the recovery journal of the connection behind it. On the way in an RTP packet is
-- unpacked, and its payload is written to the ring. Sessions are opened, timed and closed by the
-- commands of AppleMIDI: the responders answer them and change the table of connections, by which
-- the sender knows its receivers.
--
-- The files and the code they model, by the paths of the repository:
--   Common        tests, lists, memory with undefined behaviour as a value, bits, integers, strings,
--                 searches in lists
--   RingBuffer    raveloxmidi/src/ring_buffer.c; `Ring` is ring_buffer_t, and `write`, `read`,
--                 `read_byte`, `resize`, `drain`, `compare`, `advance` … are ring_buffer_write …
--   Dbuffer       raveloxmidi/src/dbuffer.c
--   MidiCommand   raveloxmidi/src/midi_command.c, with the table of messages
--   MidiState     raveloxmidi/src/midi_state.c; `send rtp z_flag` is midi_state_send, with `rtp`
--                 for MIDI_PARSE_MODE_RTP, `step` the body of its loop. MidiState/Parser is the
--                 same parser over a list of bytes, its specification
--   Bytes         raveloxmidi/src/utils.c, the numbers in network order
--   RtpPacket     raveloxmidi/src/rtp_packet.c
--   MidiPayload   raveloxmidi/src/midi_payload.c
--   MidiNote, MidiControl, MidiProgram
--                 raveloxmidi/src/midi_note.c, midi_control.c, midi_program.c
--   ChapterP      raveloxmidi/src/chapter_p.c
--   Journal       raveloxmidi/src/midi_journal.c with chapter_c.c and chapter_n.c: the events that
--                 are entered, the reset, and the packed form (Journal/Headers, Journal/Pack)
--   AppleMidi     raveloxmidi/src/net_applemidi.c: the commands of the session protocol, packed and
--                 unpacked; AppleMidi/Wire has their bytes, as an independent description
--   DataTable     raveloxmidi/src/data_table.c
--   Connection    raveloxmidi/src/net_connection.c: the table of sessions
--   Responder     raveloxmidi/src/applemidi_inv.c, applemidi_ok.c, applemidi_by.c, applemidi_sync.c,
--                 applemidi_feedback.c, net_response.c, the invitation in remote_connection.c, and
--                 the reading of a command in net_socket.c (`read_command`); Responder/Clock is about SYNCs
--   Sender        raveloxmidi/src/midi_sender.c: `send_single` is midi_sender_send_single, `build`
--                 the packet it makes
--   Socket        raveloxmidi/src/net_socket.c: `read` is net_socket_read behind recvfrom, `read_rtp`
--                 its part for RTP MIDI
--   KvTable       raveloxmidi/src/kv_table.c
--   Config        raveloxmidi/src/raveloxmidi_config.c, with is_yes and is_no of utils.c: `init` is
--                 config_init, `parse_line` the body of the loop of config_load_file; Config/Values
--                 has the reads of numbers and flags, Config/Iter the keys with an index
--   Queue         raveloxmidi/src/data_queue.c: `handler_step` is a round of data_queue_handler
--                 between two steps of other threads; Queue/Threads has the step relation
--   DataContext   raveloxmidi/src/data_context.c; DataContext/Shared has the steps of the two threads
--                 around the context of a datagram, in net_socket.c and midi_sender.c
--   Dstring       raveloxmidi/src/dstring.c
--   Remote        raveloxmidi/src/remote_connection.c, the list of services of
--                 dns_service_discover.c and net_ctx_find_by_name
-- Below a module, Inv or Laws has the invariant, Fifo and Parser have the specifications, Tests has
-- runs on concrete data; the other files are named for what they prove.
--
-- Numbers are native, and a size_t wraps at 2^64 where the code computes with it. A function that
-- changes a struct returns the new record. A memory access outside its object is the value `fault`
-- of `Exec`; that a function does not fault, or does, is part of what is stated. Allocations have
-- their answer as an argument where the code has a branch on it; the results are about allocations
-- that succeed. The loop of `midi_state_send` has fuel, one round more than there are bytes, and
-- running out of it counts as a fault, so the refinement shows that it is enough.
--
-- A session is an element of the table, and a pointer to it is its place there. The clock, the random
-- numbers, what getaddrinfo answers and the configuration are in `Env`, an argument; a datagram that
-- is handed to sendto is a value that is returned.
--
-- What `fopen` and `fgets` give is the argument `files` of the configuration, the options are those
-- that `getopt_long` has found, and what Avahi finds is the argument `discover`. Around the queue, a
-- state has the queue, the place of its thread, and what was added and handled; a step is an entry, the
-- stop, a waking of the thread without a signal, or a step of the thread. Each is made under the mutex,
-- or between two times that the thread holds it. The thread alone is run for a number of steps, one and
-- two more for each item, and the result shows that these are enough. The context of a
-- datagram has two threads around it in the same way.
--
-- Not modelled: the mutexes but the queue's (each operation holds its own from end to end),
-- logging and dumps, freeing of memory but for the queue's nodes and the contexts, the sockets
-- themselves and their loops, ALSA, Avahi, the list of sessions as JSON, the start of the program
-- and the other threads: they are calls of the system and of libraries, or have no state that
-- another part reads.
pub mod Common
pub mod Bytes
pub mod RtpPacket
pub mod MidiPayload
pub mod ChapterP
pub mod MidiNote
pub mod MidiControl
pub mod MidiProgram
pub mod Journal
pub mod AppleMidi
pub mod DataTable
pub mod Connection
pub mod Responder
pub mod Sender
pub mod Socket
pub mod Remote
pub mod RingBuffer
pub mod Dbuffer
pub mod Dstring
pub mod KvTable
pub mod Config
pub mod Queue
pub mod MidiCommand
pub mod MidiState
pub mod DataContext
