-- ===== src/Lib.antt =====
-- fizzled-go: a server that runs countdown jobs for authenticated agents, and its client.
--
-- An agent connects over mutual TLS. The server's interceptor (internal/server/interceptor.go) turns
-- the peer's certificates into an agent id by the authenticator (internal/authn), asks the authorizer
-- (internal/authz) whether the agent may take the action of the method, and calls the handler
-- (internal/server/service.go) with the id in the context. The handler creates, finds, stops or
-- streams a job by the registry (internal/registry), which keeps each agent's jobs; each job
-- (internal/worker) is a goroutine that counts down, one tick at a time, into a buffer that any number
-- of subscribers replay and follow. The client (internal/client) and its program cmd/fizzle turn
-- answers into lines, errors and exit codes. cmd/fizzled builds the server (internal/server/server.go)
-- from its flags, serves until its context ends, and shuts down: first the jobs, then the transport.
--
-- The modules:
-- - Prelude: shared names; lists, byte strings, decimals, integers, maps and the few functions of
--   packages strings and regexp that the program calls.
-- - Errors: errors as the list of sentinels that errors.Is finds, and results.
-- - Worker: internal/worker. Tick and Job are the data and the operations under the mutex; Countdown
--   is `countdown` as a step relation, whose events are the timer, the end of the context, a cancel
--   call and a panic at any point; Countdown.Stop is `Stop` in two halves; Subscriber and Stream are
--   `Ticks` beside the goroutine, with every interleaving of their steps.
-- - Registry: internal/registry. Jobs live in a store, and a pointer is a position in it.
-- - Authn: SpiffeId is internal/authn/spiffeid, X509svid is internal/authn/x509svid, Certificate the
--   fields of an x509.Certificate that are read, Loader the calls for files and encodings, and AgentId,
--   Identity, TrustBundle, TlsConfig and Authenticator the files of those names in internal/authn.
--   Below Authenticator, Setup is what builds an authenticator and its configurations, and Audit the
--   lines that it logs.
-- - Authz: internal/authz.
-- - Server: Interceptor and Service are the files of those names in internal/server; Rpc is what they
--   use of package grpc. Every handler is a function of the context and the world. Service.Streaming is
--   the Send loop of `StreamOutput` beside the job. Call is a whole RPC, from its peer to its
--   answer. Lifecycle is server.go, Lifecycle.Serving its `Serve` and `shutdown` as a state machine, and
--   Lifecycle.System these beside the registry and its jobs.
-- - Client: internal/client, with Connection for building a client and Streaming for its iterator.
-- - Command: cmd/fizzle (Fizzle) and cmd/fizzled (Fizzled), with what they use of packages flag and
--   strconv.
-- - TestPki: internal/testpki, the certificates and files of the tests. Documented has what it relies
--   on in the packages that it calls, Issued and Leaves what it issues, Roots, Admitted and Roles how
--   internal/authn and internal/authz take its files.
-- - Registry.Directory is what the registry promises, apart from how it stores it.
--
-- Numbers and bounds. Go's int and time.Duration are integers without the bound of 64 bits; counts are
-- at most 100, and the int32 of the wire is written out. Instants are nanoseconds from one origin. A
-- job's goroutine needs no fuel: a measure bounds its steps. The only fuels are that of `receive`,
-- four acts for each tick and five more, and that of `read_blocks`, a round for each byte of the text;
-- a theorem about each shows that it is enough.
--
-- Parameters. Chain building of crypto/x509 is `ChainCheck`; reading a file and decoding JSON are
-- `Decoder`; reading, decoding PEM, parsing certificates and loading key pairs are `Loader`;
-- dialing, the two JSON encoders and the calls of the generated client are `Environment` and
-- `Wire`; listening is `listen`; what internal/testpki calls is `Tools`. The scheduler, the timers
-- and the panics are the events of the step relations, and so are the ends of the transport's
-- `Serve` and `GracefulStop`.
--
-- Not modelled: the texts of error and log messages, and logging but for the audit lines of a job's
-- end, of a decision and of a peer, and what cmd/fizzled logs; random tick intervals, whose lengths
-- do not change what is counted; the delivery of signals to the commands; a stream that never ends
-- on the client's side; and generated code.
pub mod Prelude
pub mod Errors
pub mod Worker
pub mod Registry
pub mod Authn
pub mod Authz
pub mod Server
pub mod Client
pub mod Command
pub mod TestPki
