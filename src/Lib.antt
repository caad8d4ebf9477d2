-- ===== src/Lib.antt =====
-- The ShadowTwin host agent (go-agent-v0): a collector follows the journal, a disk-backed queue
-- keeps its events, and a consumer ships them in batches to the platform over mutual TLS. The same
-- binary installs, inspects and removes itself; a mock platform answers it.
--
-- Parts, and the files that model them:
--   internal/buffer/buffer.go        Buffer: Queue and Disk as a Spool; Write, and in Buffer/Reading
--                                    ReadBatch, Ack and DeadLetter, in Buffer/Opening Open;
--                                    Buffer/Interleaving: any sequence of these calls
--   internal/collectors              Collectors/Event (NewEvent), Collectors/Uuid (newUUID)
--   internal/collectors/auth         Auth (cursor, arguments), Auth/Entry (parseEntry), Auth/Scan
--                                    (scan), Auth/Lifecycle (Start, and run and Stop as
--                                    a step relation)
--   internal/transport/transport.go  Transport: Send; Transport/Backoff: Backoff
--   internal/enroll/enroll.go        Enroll: EnsureIdentity, Renew, postCSR, writeFileAtomic
--   internal/pki/pki.go              Pki: SignCSR; Pki/Keys: keys, requests, NewCA, ClientConfig,
--                                    IssueServerCert
--   internal/config/config.go        Config: Default, Load
--   cmd/agent/main.go                Agent/Start: main, the start of runAgent, buildSink and the
--                                    renewal loop; Agent/Sink: the producer, runSink and
--                                    finalFlush; Agent/Pipeline: the collector, the producer and
--                                    the consumer as a step relation, and in
--                                    Agent/Pipeline/Restart a later Start
--   cmd/agent/onboard.go             Onboard: what is rendered and read back; Onboard/Accounts,
--                                    Onboard/Depth, Onboard/Host: the helpers; Onboard/Install,
--                                    Onboard/Uninstall, Onboard/Doctor (status too): the commands
--   cmd/mock-platform/main.go        Platform: the handlers on the server's state;
--                                    Platform/Startup: main up to the listener; Platform/Client and
--                                    Platform/Enrolling: the agent's exchanges with it
-- Fs models the part of package os that they call, with Fs/Trees for calls that walk a folder and
-- Fs/Actions for calls in a chain that stops at the first error; Text models the part of package
-- strings, Prelude has the shared types. Tests holds concrete data and runs.
--
-- How state is modelled. A method that holds the queue's mutex is a function from the queue and the
-- disk to its result, the queue and the disk. The disk carries a list of faults, one for each call
-- to come: a call can be refused, and a write can leave only its first bytes. A process that dies
-- leaves the files of a run whose later calls are all refused, so what holds for every list of
-- faults holds at a crash too. In Agent/Sink the consumer and the producer interleave at whole
-- calls of the queue: the producer has a turn before each ReadBatch, which covers the waits for a
-- tick, for a backoff and for the end of the producer, a turn between ReadBatch and the call that
-- follows the shipment, and one after the consumer's end. The consumer's state keeps the list of
-- shipments, which the program only logs. In Agent/Pipeline every goroutine takes its steps one at
-- a time, in any order that the channel between them allows; the cursor file and the queue's
-- folder are apart, so each has a disk of its own there. The onboarding commands act on a host: its
-- disk, and the system commands that have been run, from which a World answers what the accounts,
-- services and exit codes are, and the owners that it has given to paths.
--
-- Bounds and fuel. Counters are integers without bound: the limits keep them far below the ends of
-- an int64. Backoff is in 64-bit arithmetic, since its shift does overflow. The loop of the limits
-- has a round for each stored file and one more, and a pass of the consumer takes its
-- fuel as an argument: a round that another one follows has taken an event file away or met a
-- fault, so the files and the faults to come bound the rounds. The installer's wait for the
-- service has 26 rounds: each sleeps for a second, and the deadline is 25 seconds away. A body that
-- the code reads through an io.LimitReader is cut at its limit, and the environment file at the
-- first line that fills the scanner's buffer.
--
-- Parameters: encoding/json, compress/gzip, crypto/x509, net/http, os/exec, the random source, the
-- clock, the environment, filepath.Join and the resolution of paths. What they return is an argument
-- of the definitions that use them.
--
-- Not modelled: the parsing of command-line flags, log lines and the wording of printed ones, the
-- time that waitOrStop sleeps, the TLS listener, the tail of the journal that status prints, and
-- the Python services.
pub mod Prelude
pub mod Text
pub mod Fs
pub mod Collectors
pub mod Buffer
pub mod Transport
pub mod Config
pub mod Auth
pub mod Onboard
pub mod Enroll
pub mod Agent
pub mod Pki
pub mod Platform
pub mod Tests
