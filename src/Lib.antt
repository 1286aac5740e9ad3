-- ===== src/Lib.antt =====
-- CEELL: a middleware for automotive nodes, in C on Zephyr. Each node loads a configuration, registers
-- its services, announces them by multicast, keeps a table of the peers that it hears, watches their
-- health, and exchanges prioritised requests with them.
--
-- The parts, and how they interact. The service registry (ceell/core/service_registry.c) holds the
-- node's services; discovery (ceell/network/discovery.c) announces their names as comma-separated text
-- and keeps the peers it hears; service discovery (ceell/network/service_discovery.c) looks a name up in
-- what the peers announced. The lifecycle loop expires peers and then updates the health monitor
-- (ceell/core/health_monitor.c) from a copy of the peer table; a lost peer leads to the safe state
-- (ceell/core/safe_state.c), as an expired watchdog (ceell/core/watchdog.c) does. Timing
-- (ceell/core/timing.c) and budgets (ceell/core/timing_budget.c) measure by label.
--
-- The files:
--   Prelude, Errno, Bytes, Recent: shared names, return codes, C strings in arrays, the ring behind
--     timing and redundancy.
--   Csv, with Csv/*: csv_contains and strchr, and the words between commas.
--   Registry, with Registry/*: ceell/core/service_registry.c.
--   Redundancy, with Redundancy/*: ceell/network/msg_redundancy.c.
--   Timing, Budget, Safe, Health, with their folders: the files of ceell/core/ of these names.
--   Discovery, with Discovery/*: ceell/network/discovery.c and the lookup in service_discovery.c. Threads has the
--     set-up of the socket and the rounds of the two threads, Announced joins sender and receiver, Lookup
--     views the table as a map, Offer the lookup as a search in the lists of names.
--   Ota/Version, with its folder: ceell/ota/ota_version.c.
--   Messaging, with its folder: ceell/network/messaging.c, msg_priority.h, msg_deadline.c and tsn.c. Priority
--     and Deadline, Exchange (sending and waiting, also two senders at once), Dispatch (queues and handler
--     threads), Call (a request from one node to another and back).
--   Ota/Client, with its folder: ceell/ota/ota_client.c and ota_state.c. Download, Cycle for the check,
--     Thread for its loop.
--   Config, with its folder: ceell/core/config_parser.c. Services for the two formats, Load for the fallbacks.
--   Node, with its folder: src/main.c, ceell/core/lifecycle.c, net_setup.c and node_identity.c, and
--     ceell/osal/zephyr/osal_net.c. Boot is main step by step, Tick a round and its health callback,
--     Lifecycle the whole loop with its echo test, Threads any interleaving of the threads' rounds.
--
-- How the code is modelled. A file's static variables are one record, and an operation is a function
-- from the record to what it returns and the record afterwards, its early returns included. The
-- functions keep their C names without the prefix ceell_. A mutex is held for the whole of each
-- operation here, so an operation is one step; a thread is its body as one round. A pointer that may be
-- NULL is an Option, an array is a list of its size, a C string in an array ends at its first NUL.
-- Unsigned arithmetic wraps as the type in C does. What the operating system returns, the uptime and the
-- cycle counter are arguments, and the sizes of the configuration (CONFIG_CEELL_...) are parameters.
--
-- Fuel: csv_contains runs its loop for one round more than the text has bytes, and every round uses up
-- at least one, so that the loop ends by its own test; the expiry of peers runs for as many rounds as
-- there are peers, and each round either moves the index or removes the last peer.
--
-- Not modelled: the layer over the kernel (ceell/osal/) but for the interface's set-up, log output, the
-- JSON library, the waiting of a thread between two rounds. Threads interleave by whole rounds; how the
-- steps of a send and the threads that answer it interleave is an argument, the list of responses that
-- come in while it waits. A reset of a semaphore ends the takes that wait for it, so a slot counts its resets
-- (`resets`, which the code has not) and a take knows how many came before it.
pub mod Prelude
pub mod Errno
pub mod Bytes
pub mod Csv
pub mod Registry
pub mod Recent
pub mod Redundancy
pub mod Timing
pub mod Budget
pub mod Safe
pub mod Health
pub mod Discovery
pub mod Ota
pub mod Messaging
pub mod Config
pub mod Node
