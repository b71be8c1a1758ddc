-- ===== src/Lib.antt =====
-- A verification library for the SHUOSC network server: a WireGuard hub that registers users with
-- invite codes, gives each of their peers a key and a tunnel address, and finds its own public
-- endpoint with STUN.
--
-- The parts and how they interact. The API handlers call the services (internal/auth,
-- internal/account, internal/admin) and the peer manager (internal/peer/manager.go); these call the
-- stores (internal/store) over PostgreSQL, the address allocator (internal/peer/ipam.go) and the
-- WireGuard device. The rate limiter (internal/api/ratelimit.go) stands before login, registration
-- and the peer endpoints. The punch service (internal/punch/service.go)
-- finds the endpoint with STUN and forwards packets to WireGuard; the reporter (internal/discovery)
-- publishes it, and the relay agent (internal/relayagent) passes requests on from outside.
--
-- The files.
--   Common, Common/*    names of the libraries passed on, lists, bytes, strings, exclusive or
--   Model               internal/model: users, peers, invite codes
--   World, World/*      the state that the services share, with calls that may fail, and the rules
--                       by which operations on it are proved: Keeps (an invariant), Triple (what
--                       holds on return and on failure), gates for the tests at the start of an
--                       operation, statements and their points
--   Store, Store/*      internal/store/{peer,user,invite}_store.go: SQL as functions on lists of rows,
--                       and the paged lists in Store/Lists
--   Store/Migrations, Store/UpSection, .../*  internal/store/db.go: RunMigrations and the section of
--                       a file that it runs
--   Peer/Ipam, .../*    internal/peer/ipam.go
--   Peer/Manager, .../* internal/peer/manager.go: AddPeer in Manager, RemovePeer, GetPeerConfig and
--                       ReplaceKey in Removal, Reconcile in Reconcile (what the allocator and
--                       the device hold after it in Reserved and Device), the rest in Server
--   Auth, Auth/*        internal/auth: the password policy, Register, Login, ValidateToken
--   Account, Account/*  internal/account/service.go
--   Admin, Admin/*      internal/admin/service.go
--   Api/RateLimit, .../* internal/api/ratelimit.go
--   Api/Answers, Api/Requests  the bodies and errors that handlers answer with, and what they read
--   Api/Guard, .../*    internal/api/middleware.go, and the way from Login to it
--   Api/Accounts        internal/api/auth_handler.go and me_handler.go
--   Api/Peers           internal/api/peer_handler.go
--   Api/Admins, Api/AdminPeers, .../*  internal/api/admin_handler.go
--   Api/Router, .../*   the routes of internal/api/router.go with their middlewares, and
--                       health_handler.go: Callers and Standing (who may call a route), Reads (the
--                       reading routes), Handlers, Data, Services (from the services to every
--                       request), Leases, Within and Uses (two invariants), Reconciles (the same for
--                       Reconcile), Restart (a new allocator), Runs (runs of requests)
--   Punch/Stun, .../*   the packets of internal/punch/service.go
--   Punch/Sessions, .../*  its sessions, as interleaved critical sections
--   Punch/Probe, .../*  its probes and the tests of Start
--   Config, Config/*    config/config.go
--   Relay, Relay/*      internal/relayagent/agent.go
--   Startup, Startup/*  the decisions of cmd/scnet-server/main.go on endpoint and address
--   Discovery           internal/discovery/reporter.go
--   Examples/*          the theorems at concrete values
--
-- How the model stands to the code. An operation is a function from a world to a result and a
-- world; what was written before an error stays written. Each call of the database or the device
-- takes the next entry of the list `faults`, which says whether it fails, and so does each row of
-- a query of many rows, where a failure ends the rows without an error (rows.Err is not asked). A
-- theorem for all worlds holds whichever of these fail. A statement of the database is atomic,
-- and a transaction that fails restores the database. Times are nanoseconds and keys and ids are
-- numbers; a gen_random_uuid() is the next number. Integers of the model are natural numbers,
-- since the services refuse negative ones where they arrive; what arrives is an integer. uint32
-- and uint16 arithmetic has its wrap-around. Requests and rounds of Reconcile are one after
-- another.
--
-- Bounds and fuel. The loop of Allocate has the rounds that its bounds give, and the loop over STUN
-- attributes has fuel by the length of the packet, of which each round consumes at least four bytes.
--
-- What is not modelled: goroutines between two steps of one operation (but for the sessions of
-- the punch service), sockets, websockets, timers and HTTP with the matching of paths, CORS and
-- static files, the decoding of JSON and YAML, the connection to the database, column widths (a
-- refused statement is a failing call), LIKE and ORDER BY, bcrypt, JWTs, URLs, the unicode
-- tables, the calendar and random numbers (parameters), the texts of errors, the `ip` command and
-- the wiring of the main programs. The files of the migrations, and what PostgreSQL does with a
-- text of SQL, are parameters. What the theorems on the device suppose of wgctrl is a named
-- hypothesis of each.
pub mod Common
pub mod Model
pub mod Peer
pub mod Api
pub mod Punch
pub mod Config
pub mod Relay
pub mod Startup
pub mod Discovery
pub mod World
pub mod Examples
pub mod Store
pub mod Auth
pub mod Account
pub mod Admin
