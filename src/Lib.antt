-- ===== src/Lib.antt =====
-- go-r2ps-service is a server for remote PAKE-protected services: a client sends signed requests,
-- proves a second factor by OPAQUE or FIDO2, and then has operations done by a key store. These
-- files model the server's own logic and prove what makes it correct.
--
-- Protocol: the messages, constants and error codes of pkg/r2ps/types.go.
-- Pake: internal/pake, the session store (Session), the lock-out counter (Counter) and the wrapper
-- round the OPAQUE library (Opaque), whose `NewOPAQUEServer` stands beside `NewDispatcher`. `Create`,
-- `Get`, `MarkVerified`, `Delete` and `CleanExpired` are `create`, `get`, `mark_verified`, `remove` and
-- `clean_expired`.
-- Store: internal/store, the persistence interface of store.go as a record of operations, and the
-- in-memory store of memory.go (Memory), the MongoDB store of mongodb.go over its driver (Mongo), its
-- connection (Mongo/Connect), and the status operations as data (Run), by which the two are compared.
-- WebAuthn: internal/webauthn, the CBOR reader (Cbor), authenticator data and COSE keys (AuthData),
-- `VerifyAssertion` and `VerifyRegistration` (Verify) and the challenge token (Token). A parser ends
-- with a value, an error or a panic (Outcome).
-- Crypto: internal/crypto. Jws and Jwt are the two halves of jws.go, Jwe is jwe.go, Ecdh is
-- ecdh.go.
-- Hsm: internal/hsm/pkcs11.go: its helpers (Keys), the four operations on a session (Operations) and
-- the pool (Pool).
-- StatusList: internal/statuslist/statuslist.go.
-- Admin: internal/admin/admin.go, with internal/authmw/middleware.go (Auth).
-- Modes: internal/modes/modes.go.
-- Client: pkg/client/client.go, with the fields that a login sets and the transport as its state.
-- Login puts a client in front of a dispatcher.
-- Server: cmd/server/main.go, what the environment sets, the handlers of the roles, the HTTP face of
-- the dispatcher (Http), and `main` up to its listeners (Main).
-- Service: internal/service. Sad is sad.go; Handlers is handlers.go over the backend of
-- internal/hsm/backend.go; Dispatcher is dispatcher.go and fido2.go: its small parts, the OPAQUE
-- operations (Opaque), the FIDO2 operations (Fido2), `Process` with the gates before it (Process), and
-- `NewDispatcher` with the record stores (New). Access, Lifetime, Quiet, Registered and Sessions hold
-- the proofs. Eudiw is eudiw_handlers.go: the attestations (Issue), their revocation and suspension
-- (Revoke), the JWK of a point (Jwk) and the certificates (Chain). Lifecycle follows an attestation
-- into the published list, Sound keeps the invariant of the store, Reach has the stores that key
-- generations, attestations and the admin API
-- can lead to, and Withdrawn what is published when one of them is revoked.
-- Base: shared notation, lists, signed integers, maps, texts, and the monad of methods that change a
-- state and may fail (Exec). Tests: the theorems at concrete inputs.
--
-- A handler of the source is an action on `State`: the sessions, the counter, and the state `S` of
-- the store and of the service handlers. What was written before an error stays written. One
-- request runs as one step at one instant; the source takes a lock for each operation on the sessions
-- and on the counter, and interleavings of two requests between those operations are not modelled.
-- Clock readings and random values are arguments (`Moment`). Times are nanoseconds in `ℤ`; a duration
-- that the client asks for is multiplied with the wrap-around of int64.
--
-- Parameters stand for go-jose, the OPAQUE library, AES-GCM, ECDSA, SHA-256, HKDF, the P-256 point
-- codec, the other calls of crypto/elliptic, `ModSqrt`, the OPAQUE client and its transport, the
-- MongoDB driver, the environment with strconv and time.ParseDuration, and encoding/json. `Setup` has
-- the calls that `main` makes to connect to the HSM and to MongoDB, and to draw keys. A JSON document
-- that is only carried is its bytes, and the JSON functions are typed by the structures that they read
-- and write. Texts that the source formats from an inner error are represented by their fixed part.
-- Metrics, logs and audit records are left out.
--
-- Counts, limits and skews that Go has as `int` are natural numbers, so a negative setting is not
-- told apart. The admin API answers a negative index without asking the store, which would not find
-- it: an error of the database on such a question is not seen. The error of `rand.Read` in the
-- challenge token is left out, as Go's `rand.Read` does not fail. A slice past the length counts as a
-- panic, within the capacity as well. A handler that the dispatcher calls does not panic.
--
-- `skip_value` is by recursion on a depth, which `skip_cbor_value` bounds by the length of the input
-- plus one; every nested call of the source is made behind at least one byte that was read. The bytes
-- of a big number and the blocks of a PEM file take as much fuel as the number and the file have
-- bytes. `list_on` is told how many rounds the token answers. The other loops are by structural
-- recursion.
--
-- Interleavings of two admin requests, or of one with an attestation, within one operation of the
-- store do not exist, as each holds the store's lock; a handler that makes several of them is one step
-- here. The pool of PKCS#11 sessions is modelled under any interleaving.
--
-- Not modelled: of the server's main the routing, the listeners, logging and shutdown, which are calls
-- of net/http and the operating system; the deadlines of contexts, which reach the model as errors of
-- a call.
pub mod Base
pub mod Protocol
pub mod Pake
pub mod Store
pub mod WebAuthn
pub mod Crypto
pub mod StatusList
pub mod Admin
pub mod Modes
pub mod Hsm
pub mod Service
pub mod Client
pub mod Server
pub mod Tests
