-- ===== src/Lib.antt =====
-- Verification of magnum-tcp, a TCP/IPv4 stack in user space.
--
-- The program. A node (magnum-tcp/src/main.rs) reads frames from an interface. A frame is parsed as
-- Ethernet (ethernet.rs), as a request for an address (arp.rs), as IPv4 (ipv4.rs) and as TCP
-- (tcp/header.rs). A demultiplexer (tcp/mod.rs) hands a segment to the connection of its four addresses
-- and ports. A connection (tcp/connection.rs) holds a control block (tcp/tcb.rs), a buffer for each
-- direction (tcp/send_buffer.rs, tcp/recv_buffer.rs) and the segments that may have to be sent again
-- (tcp/retransmit.rs). A task (tcp/task.rs) drives it by arrivals, timers and the application. What is
-- sent goes through the fault injector (chaos.rs) and is recorded (pcap.rs).
--
-- The files. Each names the code that it is about.
--   Base        lists, tests and words on the native numbers, for all others
--   Net         addresses, big-endian fields, and the errors of error.rs
--   Float       the operations on f64 that the code calls: a parameter, and what the code relies on
--   Checksum    the loop that sums words and the loop that folds carries, of ipv4.rs and tcp/header.rs
--   Ipv4, Ethernet, Arp, Header
--               the formats, each with what parsing makes of what was built; Ipv4/Accepts and
--               Header/Damage say what is accepted, and what becomes of a segment that was damaged
--   Tcb         the control block and the arithmetic on sequence numbers
--   Ring        the loops that copy bytes into and out of the buffers' storage
--   SendBuffer  write, next_segment, advance_nxt, acknowledge; SendBuffer/Stream has the abstract view,
--               the list of bytes that are not yet acknowledged
--   RecvBuffer  insert, commit, drain_ooo, read; RecvBuffer/Reassembly sets it against the stream of the
--               peer, RecvBuffer/Delivery follows sequences of calls, RecvBuffer/Progress says what is
--               delivered at once
--   Retransmit  the queue, its timeout and its samples; Retransmit/Single and Retransmit/Backoff follow
--               one segment
--   Connection  the public methods; its children Opening, Established and Closing have the handlers of
--               the states, Handlers has process_segment, Run the sequences of calls, Duplicates
--               fast retransmission and fast recovery, and the others
--               what is proved of them: among these, Handshake, Transfer and Teardown set two
--               connections against each other that hand each other the bytes they send;
--               Transfer/Lossy has the link that loses them, and Transfer/Resend and
--               Transfer/Recovery how the timer of the sender makes up for it
--   Task        one turn of the loop of run_connection_task for each arm of its select; Task/Refine has
--               the relation that says what a turn has to do; Task/Session, Task/Unanswered
--               and Task/Probing follow its turns
--   Dispatch    Stack and AsyncDispatch, and the listener of tcp/listener.rs; Dispatch/Spawning has the
--               connections that are started
--   Text        what the node uses of text: UTF-8, decimal numbers, words and lines
--   Tun         the system calls of tun.rs as a record of functions, and what is known of them; its
--               children Linux and Macos have the two devices, Descriptors what they leave open
--   Node        inbound_dispatch and frame_outbound for Linux, and in Node/Macos for macOS; Node/Address
--               has parse_ip and format_ip, Node/Startup how run gets to its loop, Node/Loop the loop, and
--               Node/Http the server: build_http_response, handle_connection, and in Node/Http/Server the
--               channels between it and the task of its connection; Node/Http/Fetch puts a request
--               and its response on two connections, and Node/Http/Visit opens them first
--   Chaos, Pcap the fault injector and the bytes of a capture file
--   Examples    concrete inputs
--
-- How state and calls correspond. A struct is a record with the fields of the source, and a method
-- that changes it returns the new record beside its result. A u32 is a number below 2 ^ 32 and wraps
-- where it is added; an instant or a duration is a count of nanoseconds, and a call that reads the
-- clock takes what it reads as `now`. A hash map is a function, a BTreeMap the list of its entries by
-- key, and a fixed array that is indexed modulo its size a function of the index. Logging is left out.
--
-- Parameters. F64 stands for the floating-point numbers, Hasher for the standard library's hasher,
-- Channels for the bounded channels of the runtime, and Sys for the calls of the operating system, on a
-- state that is not known. TracksDescriptors says which of these open and close a descriptor, and
-- OrdersDurations how the numbers and the durations made of them are ordered.
--
-- Bounds. The sending loop of a task is given one pass more than the buffer has bytes, and each pass
-- sends one at least. The loop that folds carries recurs on its argument, which falls. A stream of
-- the peer is shorter than 2 ^ 31 bytes, since sequence numbers tell only so many apart. The reader of
-- capture files is given one pass more than there are packets.
-- A link loses or damages each segment, or loses its answer, a finite number of times, given as a list;
-- each time the clock moves on by the timeout and by a delay. A transfer is given as many rounds as
-- there are bytes. The fault injector is modelled for a jitter below the greatest u64, to which the
-- source adds 1, and for instants that the clock's type can hold.
--
-- Not modelled: how the command line is read, the file behind a capture, how the runtime waits for its
-- events, the blocking of a task on a full channel, and the device's stub for other systems.
pub mod Base
pub mod Net
pub mod Float
pub mod Checksum
pub mod Ipv4
pub mod Header
pub mod Tcb
pub mod Ring
pub mod SendBuffer
pub mod RecvBuffer
pub mod Retransmit
pub mod Connection
pub mod Ethernet
pub mod Arp
pub mod Task
pub mod Text
pub mod Tun
pub mod Dispatch
pub mod Node
pub mod Chaos
pub mod Pcap
pub mod Examples
