-- ===== src/Lib.antt =====
-- Verification of the trust registry: a service that stores trust records (who is recognized by
-- whom, and authorized for what), answers queries about them as Trust Tasks, and lets
-- administrators change them over DIDComm and TSP; and of the client library that finds and asks a
-- registry.
--
-- The parts and their files:
-- * Domain (trust-registry/src/domain): `Domain.Json` are JSON values and the merge of contexts,
--   `Domain.RecordType`, `Domain.Record` and `Domain.Builder` the records and how they are built,
--   `Domain.Key` their keys with the sort key.
-- * Storage (trust-registry/src/storage): `Storage.Repository` has the two repository traits as one
--   record of operations, and the contract over the view by key, for stores that tell keys apart
--   and for stores that tell sort keys apart. The implementations under adapters/: `Storage.Local`
--   is local_storage.rs, `Storage.Csv` is csv_file_storage.rs (`Row` its rows, `File` the storage,
--   `Reload` and `Unwritten` what it reads back and what a failed write leaves), `Storage.Redis` is
--   redis_storage.rs, `Storage.Fjall` is fjall_storage.rs and `Storage.Dynamo` is ddb_storage.rs,
--   the three over `Storage.KeyValue`. The clients of a repository are proved over any that meets
--   the contract.
-- * TrustTasks (trust-registry/src/trust_tasks): `TrustTasks.Router` are the handlers behind the
--   dispatcher, with the two dispatchers in `TrustTasks.Router.Dispatch`, `TrustTasks.Proof` says
--   which tasks are writes, `TrustTasks.Gate` are the checks before a dispatch.
--   `TrustTasks.Framework` stands for the crate of the framework.
-- * Dedup (trust-registry/src/dedup): the claim protocol for message ids and its in-memory store,
--   between the gate and the router.
-- * Capabilities (trust-registry/src/capabilities): `Capabilities.Set` enables and disables
--   capabilities and swaps the dispatchers, `Capabilities.Governance` are the handlers that ask it
--   to; `Capabilities.FileStore` keeps the enablement in a file; `Capabilities.GitTrust` is one
--   capability, a client of the repository.
-- * Audit and Didcomm (trust-registry/src/audit, trust-registry/src/didcomm): `Audit` are the
--   entries and `Audit.Logger` how they are written; `Didcomm.Admin` is the admin protocol with its
--   audit entries, `Didcomm.TrustTasks` the handler of Trust Tasks, which goes through the gate and
--   the dedup store, with the rotation of keys in `Didcomm.TrustTasks.Rotation`;
--   `Didcomm.ProblemReport` its reports, and `Didcomm.Trqp` the queries of handlers/trqp.
--   `Didcomm.Pickup` takes messages and frames from the mediator, `Didcomm.Routing` gives a message
--   to its handler, and `Didcomm.Transport` sends the replies.
-- * DidDocument, Listener, Configs and Server (trust-registry/src/didcomm/did_document.rs,
--   trust-registry/src/didcomm/listener, trust-registry/src/configs, trust-registry/src/server.rs):
--   `Didcomm.DidDocument` is the document that the registry publishes and the flags of its
--   transports, `Didcomm.Listener` the check of the document before the listener starts, `Configs`
--   what is read from the environment (`Configs.Vta` and `Configs.SecretStore` are sources of the
--   identity, `Storage.Factory` opens the storage that is named), `Server` how a running server
--   ends.
-- * Http (trust-registry/src/http): `Http.Trqp` are the REST queries, `Http.TrustTasks` is the
--   endpoint for Trust Tasks over the live dispatcher for queries, `Http.TrustTasks.Live` puts it
--   over the capability set as trust-registry/src/server.rs does, with what git-trust registers
--   (`Capabilities.GitTrust.Definition`), `Http.Error` the error responses; `Health`
--   (trust-registry/src/health.rs) is what `/health` reports.
-- * Tsp (trust-registry/src/tsp): the same path for the other transport, with the retry of the
--   unpacking.
-- * Client (trql-client/src): discovery of transports in a DID document, the choice of one, errors,
--   the routing of replies to their waiters; `Client.Https` and `Client.Exchange` are the
--   exchanges, the latter over a binding, of which `Client.Didcomm` and `Client.Tsp` are the two;
--   `Client.Query` is the query client, which `Client.Query.Registry` composes with the registry's
--   dispatcher and storage, as `Client.Tsp.Served` does with its envelopes and
--   `Didcomm.DidDocument.Advertised` with its DID document.
-- Base has the shared helpers, Tests the runs at concrete values.
--
-- How the code is modelled: a method over shared state takes the state and returns it with its
-- outcome; a lock gives a method the state alone, so that concurrent calls are sequences of calls.
-- A reading of the clock and a new random id are arguments. Hash maps are association lists. Log
-- lines are left out. JSON numbers are natural numbers: no code that is modelled looks into one.
-- `retry_transient` runs on fuel, one more than the number of attempts that it may make, which is
-- enough since each round counts one attempt. The scan loop of the Redis storage runs on fuel,
-- which is enough when it is at least the number of pages of the scan. Time is counted in natural
-- numbers of one unit; that the addition of a lifetime to a time overflows is left out, as in
-- practice it cannot.
--
-- What stands outside is a parameter: the Trust Task framework with its documents and the proof
-- verifier, the conversion of generated payload types, the messaging libraries, the client of the
-- VTA, and the file system, of which it is assumed that what was written to the temporary file and
-- renamed is what is read. The storages stand over a keyspace, a connection, a table or a file,
-- which on a state that answers acts as a map or as a text with a time of its change; JSON, base64
-- and CSV are assumed to read back what they wrote. The loops of the listener run for a number of
-- rounds: they have no end of their own, and each theorem holds for every number. A task that is
-- spawned is listed; what it does is the handler's. Not modelled: the opening of connections, the
-- routes of the HTTP server, setup tools and test programs, which are I/O or calls of libraries.
-- The two loops that demultiplex replies are modelled by one round, and an exchange runs over the
-- list of the frames that are handled until it ends.
mod Base
pub mod Domain
pub mod Storage
pub mod Http
pub mod Health
pub mod TrustTasks
pub mod Dedup
pub mod Capabilities
pub mod Configs
pub mod Server
pub mod Client
pub mod Audit
pub mod Didcomm
pub mod Tsp
mod Tests
