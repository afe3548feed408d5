-- ===== src/Lib.antt =====
-- SimpleTwitter: a service for short posts, kept on a ring of storage servers.
--
-- The program has these parts. A storage server (src/storageserver) keeps lists of strings under
-- keys, grants leases on them and revokes the leases before a change. The servers form a ring: a key
-- belongs to the first server at or behind its hash. The libstore (src/libstore) is the client of the
-- ring inside an application server, with a cache of leased values. The application server
-- (src/stwserver) has the users, subscriptions and posts, under the keys of src/util/keyFormatter.go.
-- The web server (src/webserver) passes HTTP requests on to the application servers.
--
-- Files:
--   Common, Common/*     names in use, Go's outcomes (a value, a panic, an exit), orders, maps, int64
--   Text, Text/*         strings.Split, strconv.FormatInt and strconv.ParseInt in base 16
--   Search, Search/*     the binary searches of src/util/common.go, against a plain walk
--   Slices, Slices/*     insertion and removal by copy, as every ordered slice is changed
--   Hash                 StoreHash of src/libstore/libstore_api.go
--   Keys, Keys/*         src/util/keyFormatter.go
--   Lease, Lease/*       the lease records of src/util/common.go
--   Ring, Ring/*         SearchHashRing of src/util/common.go, and the building of the ring
--   StorageServer, StorageServer/*
--                        src/storageserver/storageserver_impl.go with the messages of
--                        src/rpc/storagerpc/proto.go: State is the struct, Leases its recordLease,
--                        getAppServer and revokeLease, Handlers its requests (Get is get, GetList
--                        get_list, Put put, Delete delete_key, AppendToList append_to_list,
--                        RemoveFromList remove_from_list), Membership its RegisterServer and
--                        GetServers, with NewStorageServer; Effects is the specification of the
--                        requests, Refinement and Reads show that the handlers meet it, Service runs
--                        sequences of requests and shows how servers divide them, and Stale shows two
--                        ways in which a lease holder is not told of a change
--   Libstore, Libstore/* src/libstore/libstore_impl.go: State is the struct and the heap of lease
--                        records, Cache the parts of a query that hold the lock, with RevokeLease and
--                        a round of cacheRecycler, Requests getStorageServer, Get and GetList, Writes
--                        Put, Delete, AppendToList and RemoveFromList, Setup NewLibstore; Coherence
--                        is the invariant between cache and records, Later, Heap, Keeps and Ends show
--                        that the parts keep it, Events and Session run any interleaving of them, Policy and
--                        Revocation are about leases, Extended about a lease that outlives its grant,
--                        Routing, Answers, Values and Ready about the methods as a whole
--   Cluster, Cluster/*   a libstore without leases in front of the storage servers, as the store that
--                        the application server relies on
--   Startup              how a slave dials the master and registers until it is told the servers, in
--                        NewStorageServer and NewStwServer
--   StwServer, StwServer/*
--                        src/stwserver/stwserver_impl.go: Membership is RegisterServer and GetServers,
--                        Join what NewStwServer does to form the cluster, Store the interface of the
--                        libstore that the handlers use, Users CreateUser, Subscribe and Unsubscribe,
--                        Posts Post and DeletePost, Timelines Timeline and HomeTimeline; Dispatch is
--                        src/rpc/stwrpc/rpc.go, the server as its callers see it
--   WebServer, WebServer/*
--                        src/webserver/webserver_impl.go: State is the struct, with requests and
--                        responses, Routing RequestHash and getStwConn, Handlers the handlers and the
--                        routes, Gate servePuzzle, ddosProtectionWrapper and NewWebServer; Holds is
--                        about the visitors that are held up, Answers and Serves about whatever is
--                        sent to the server
--   StwClient            src/stwclient/stwclient_impl.go
--   HttpClient, HttpClient/*
--                        src/httpclient/httpclient_impl.go; Effects, Reaches and Stores follow its
--                        requests through the web server to an application server and into the store
--   Runner               src/runners/rlibstore/rlibstore.go, which runs commands on a libstore
--   Tests, Tests/*       runs of the model, and the theorems at concrete inputs
--
-- How the model stands to the code. A Go string is the list of its bytes. A map is an association
-- list; the order in which Go ranges over a map is a parameter. A handler runs under the server's
-- lock, so it is a function from a state to a state, a reply, and the calls that it sends. What it
-- meets outside is a record Env: the readings of the clock and whether dialling a host succeeds. An
-- index out of range is a panic and log.Fatal an exit, and both are outcomes of the model. In the
-- searches the source's j is kept as hi = j + 1, so that it is never negative. The searches run on
-- fuel: one round more than the slice has elements, which is shown to be enough. Sixteen rounds
-- print a 64-bit number in base 16. An int64 is an integer, and the one sum of the program that
-- could leave its range wraps around.
--
-- A query of the libstore holds the lock twice, and waits for the storage server in between:
-- begin_query and end_query are its two parts, and a record is a place on a heap, since a query
-- keeps the pointer to it while the table of records may change. In Events the connection to the
-- storage server, which getStorageServer opens between the two, belongs to the first. NewLibstore
-- asks five times, and wait_ready has that number as its fuel.
--
-- The web server passes a request on by a call of an application server: the servers are a record
-- Apps of what a call answers and how it changes them, and app_servers makes one of the handlers of
-- the application server over any store. A failed call is `none`. Go's sort.Sort, the Bloom filter,
-- the mean latency in float64, the JSON decoder and the delivery of HTTP requests are parameters;
-- strings that go through JSON are taken to be valid UTF-8, which it carries unchanged. A request
-- to the web server is one step, although the server takes no lock. The loops that register with a
-- master have no bound, so await_servers has one as an argument, and NewWebServer gives up after
-- five replies.
--
-- In Cluster one operation runs at a time: the libstore's request is carried to the server at its
-- target and answered, and each operation has its own readings of the clocks. A server that panics
-- or exits ends the run. The libstore is in mode Never there, as rlibstore makes it if it handles
-- no leases; that of the application server is in mode Normal, whose cache may give values of
-- before a change.
--
-- Not modelled: listening and registering for RPC, what the file server of the web server sends,
-- the other runners and the test programs, since they are I/O, and the answers of the revoked
-- hosts, which the server does not look at.
mod Common
pub mod Text
pub mod Search
pub mod Slices
pub mod Hash
pub mod Keys
pub mod Lease
pub mod Ring
pub mod StorageServer
pub mod Libstore
pub mod Startup
pub mod Cluster
pub mod StwServer
pub mod WebServer
pub mod StwClient
pub mod HttpClient
pub mod Runner
mod Tests
