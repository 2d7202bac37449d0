-- ===== src/Lib.antt =====
-- Verification of KENS, a simulator of networks and hosts for teaching (the library of src/ and
-- include/E).
--
-- The program. `System` keeps a virtual clock and a queue of messages, and hands each message at its
-- time to the `Module` that it is for; modules act on the system only by sending and cancelling
-- messages. Hosts, switches and wires are modules. A host runs applications, whose system calls it
-- hands to protocol modules, and passes packets through the protocol modules (TCP, IPv4, Ethernet) to
-- its ports. A packet leaves a port for a wire, which delays it; a switch or hub is a `Link`, which
-- keeps a queue of packets for each port.
--
-- The files.
--   Prelude: names, Boolean tests, lists, tables, sets of numbers, chains of options.
--   System (src/E/E_System.cpp, include/E/E_System.hpp, src/E/E_Module.cpp): allocate_uuid,
--     send_message, cancel_message and run are allocateUUID, sendMessage, cancelMessage and run. The
--     body of run is cut into wake_all, next_event, deliver and dispatch. The code of a module is a
--     value of `Prog`, the calls that it makes of the system in order, over any type of messages
--     and any joint state of the modules. Queue is the priority queue, Ensures and Rules carry a
--     property through the code of any module, Invariant and Time hold what they are used for.
--     Hands, Budget, Deliveries and Returns are about modules that pay for what they send, whose runs
--     return. Spec is what a client can rely on; Valid, Steps and Refines relate the core
--     to it.
--   Runnable (Runnable in include/E/E_System.hpp and src/E/E_System.cpp): thread_step is the thread
--     of run and wait, scheduler_step the waiting of start and wake, each from one operation on the
--     lock to the next. Turns lists the configurations, Runs and Wakeups are about all runs.
--   NetworkUtil (src/Networking/E_NetworkUtil.cpp): one_sum, tcp_sum and the conversions between
--     arrays and uint64_t. Checksum and Bytes compare them with arithmetic.
--   Packet (src/Networking/E_Packet.cpp): the buffer (Buffer) and the allocation of ids (Ids).
--     Objects has packets by address, with their constructors and destructor; Lifetimes and Copies
--     are about their ids.
--   RoutingInfo (src/Networking/E_RoutingInfo.cpp): the tables of a host. Prefix is the match of one
--     route, Longest the choice among all.
--   Ipv4, Ethernet (src/Networking/IPv4/E_IPv4.cpp, src/Networking/Ethernet/E_Ethernet.cpp):
--     packet_arrived is packetArrived, by the sending module; its result is the packet that is sent
--     on and the module that it is sent to. Ipv4.Header is one layer, Ethernet.Stack all four.
--   Link (src/Networking/E_Link.cpp): send_packet is sendPacket, on_check_queue the branch of
--     messageReceived for CHECK_QUEUE. Queues is one call, Order the order of a queue, Ports the pending checks of one port,
--     Checks the steps of a link together with its pending checks, Runs the runs from the start.
--     message_received is the whole messageReceived.
--   Wire (src/Networking/E_Wire.cpp): message_received is messageReceived. Order is about the order
--     of arrival.
--   Switch (src/Networking/E_Switch.cpp, src/Networking/E_Hub.cpp): packet_arrived is packetArrived of
--     a switch, flood that of a hub, both up to sendPacket. Damage is a lost packet, Forward the
--     choice of the wires, Queueing the sending through the queues of the Link, Runs all its messages.
--   Networking (src/Networking/E_Networking.cpp): the wires between nodes. Linked is what every
--     addition keeps, Peers about every network that is built.
--   TimeUtil (src/E/E_TimeUtil.cpp): Units is about the units and their names.
--   Host (src/Networking/E_Host.cpp): the process table. Descriptors, Pids and Calls are about file
--     descriptors, process ids and pending system calls; Outgoing is the way of a packet to a port,
--     Modules that between the modules of a host, Passing that from one host to another; Messages
--     has the messages of a host to itself as calls of System, Timers is about its timers, Install the modules by name.
--   Syscall, TcpApplication (include/E/Networking/E_Host.hpp,
--     src/Networking/TCP/E_TCPApplication.cpp): the parameters of a system call, by the function of
--     the application. Host.Syscalls hands it to an interface (syscall_received is a branch of
--     messageReceived), Host.Default is the interface for sleeping and the time; Issue, Raise,
--     Clock and TcpApplication.Typed are about them.
--   Transfer (app/kens/testtransfer.cpp): the loops of the applications that test a transfer; transfer is
--     the outer loop, transfer_test has the check after it. Rounds, Sender, Reading and Receiver are about
--     them, Spins about a receiver that does not end.
--   Testbed (app/kens/testenv.hpp): the hosts and switches that a test builds, with their tables;
--     TwoHosts is SetUp of TestEnv1 and TestEnv2, Reach what it builds, Ways and Delivery the way of a
--     datagram through both hosts and the switch.
--   Routing (app/rip/, app/pwospf/): Costs is linkCost, Addresses and Setup are setupGraph, Graphs and Expected
--     the data of the tests, Testing is doTesting. Kept and Ends are about the costs in what is
--     set up, Ready about the set-up of the tests, Shortest and Correct about shortest walks.
--   Tests: concrete inputs.
--
-- Errors. A failed assertion and undefined behaviour are values: `none`, or a `Fault` in System.
-- States. An application of a Host has the State of a Runnable, which launch_application and
-- return_system_call assert, and e_syscall sets; how it changes while its thread runs is modelled in
-- Runnable.
-- Words. uint64_t, uint16_t and bytes are natural numbers, with the wrap-around written out. The
-- quotients that the code computes in `double` are exact integer quotients.
-- Fuel. System.run and wake_all have fuel, since a module may send to itself for ever; each round of
-- either loop uses one unit. search_uuid gets one round more than there are ids in use, and find_pid
-- 65536 rounds, after which each has come back to its start; find_syscall_id gets one round more than
-- there are pending calls. The loops of Transfer have fuel, since `read` and `write` may yield 0 for ever; the
-- theorems say how much is enough, and when no fuel is.
--
-- Threads. Between two steps of Runnable any thread may go on; the lock decides which one can. The
-- code of pre_main and main is opaque, but for whether main waits or ends.
--
-- Not modelled: the pcap file, the logs, the floating-point draws (arguments where they are used),
-- the
-- templates of the assignments, the sequences of system calls that test them, and TestEnv3, which is
-- built like the other environments.
pub mod Prelude
pub mod System
pub mod NetworkUtil
pub mod Packet
pub mod Runnable
pub mod RoutingInfo
pub mod Ipv4
pub mod Ethernet
pub mod Link
pub mod Wire
pub mod Switch
pub mod Networking
pub mod Routing
pub mod TimeUtil
pub mod Transfer
pub mod Syscall
pub mod Host
pub mod Testbed
pub mod TcpApplication
pub mod Tests
