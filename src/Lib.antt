-- ===== src/Lib.antt =====
-- DeltaUptime: the identity and access core of the control plane. Users register an organization,
-- log in with a password and an optional second factor or with a passkey, hold a session of an access
-- token and a rotating refresh token, manage memberships and API keys, and read an audit log. The code
-- is Go over PostgreSQL: an HTTP layer calls the service, the service calls generated queries on the
-- pool or in a transaction.
--
-- Which file models what (paths from the repository's root):
-- - Errors, Input, Access: apps/control-plane/internal/auth/service.go (the sentinels, wrapping, the
--   validators, the texts of API keys) and permissions.go.
-- - Text and its children: what the program uses of Go's strings, encoding/hex, encoding/base64,
--   encoding/base32 and of UTF-8.
-- - Password, Totp: password.go and totp.go of internal/auth. Webauthn: what webauthn.go calls of
--   go-webauthn.
-- - Config, Startup: internal/config/config.go, and internal/app/app.go with NewService,
--   NewSecretsManager, internal/database/store.go and migrate.go.
-- - Database and its children: packages/database/postgres/*.sql.go with the constraints of
--   migrations/*.sql. A statement is a function of the time and the tables. Database/Frames says
--   which tables each one may change.
-- - Effects: internal/auth/repository.go, the clock, crypto/rand and Go's early returns, as a state
--   monad `App` over `World`. Effects/Quiet, Atomic, Whole and Keeps are rules for programs;
--   Inversion and Steps take a run apart.
-- - Service: service.go, types.go, tokens.go, secrets.go, webauthn.go and VerifyCode of totp.go, one
--   child for each group of methods (`Register` is register, `AuthenticateAPIKey` is
--   authenticate_api_key, and so on; Passkeys, PasskeySetup and PasskeyLogin are webauthn.go). The
--   other children of Service hold the proofs about them.
-- - Http: http.go, the handlers as functions from the decoded body and the headers to a reply.
-- - Server: the routes of NewHandler as requests, and `Reach`, the runs of a server: requests one
--   after the other, with time passing and the outside changing in between. History proves what
--   every run keeps.
-- - Tests: a concrete installation on which each theorem is applied.
--
-- How code and model correspond. A text is a list of code points; request texts are valid UTF-8, and
-- lengths are in bytes where the source counts bytes. Times are nanoseconds, a NOT NULL uuid is a
-- number and a nullable column an option. Tables keep the order of insertion, which is the order of
-- created_at and of the generated ids; gen_random_uuid is a counter, so that a new id is one that was
-- never given out. A request is served at one instant. Any call to the outside may fail (`faults`); such an error is opaque, that
-- is, it wraps neither ErrNoRows nor a server's error code, and a commit that fails has changed
-- nothing. Random bytes are a stream. Durations and limits that are not positive are 0. The metadata
-- of an audit entry is kept as a structure and not as JSON text, and the decoding of a request's body
-- is a result that the handler is given. The loops of the source are structural recursion; the only
-- fuel is that of printing a number in decimal, which is the number itself and so at least its count
-- of digits.
--
-- Parameters (`Env`, and `Outside` for the start): Unicode's case mapping beyond ASCII, net/mail, the
-- printing and reading of uuids, argon2.IDKey, golang-jwt, HMAC-SHA-1, HMAC-SHA-256 and SHA-256,
-- AES-GCM, go-webauthn with the JSON of its values, url.Parse, time.ParseDuration, os.LookupEnv, pgx
-- and goose. BeginWebAuthnLogin runs on the pool, with no transaction, as in the source.
--
-- Not modelled: the mux with its health endpoints and the shutdown, logging, reading and writing
-- JSON, closing the pool, and the panic of argon2 on a stored hash with zero rounds or threads.
--
-- Requests are served one after the other: two that run at the same time are not interleaved.
pub mod Prelude
pub mod Errors
pub mod Text
pub mod Access
pub mod Input
pub mod Database
pub mod Effects
pub mod Webauthn
pub mod Password
pub mod Totp
pub mod Config
pub mod Service
pub mod Http
pub mod Server
pub mod Startup
pub mod History
pub mod Tests
