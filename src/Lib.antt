-- ===== src/Lib.antt =====
-- Verification of skylens-node, the server that collects drone detections from WiFi sensors (TAPs).
--
-- The server receives detections, decodes the identification that a drone broadcasts
-- (internal/intel), keeps the state of drones, suspects, trails and controllers
-- (internal/processor), and serves it to users who log in (internal/auth). The development models
-- the core of these three parts and the step of the receiver (internal/receiver) that joins them. Each model is a translation of the code of one file; the parts meet
-- where one file calls another: the log-in service calls the token manager, and the state manager calls
-- the drone store, the trails and the suspect correlator, and the spoofing detector the MAC prefixes;
-- the receiver calls the spoofing detector and then the state manager.
--
-- - Common: helpers. Tests has comparisons and conditionals, Lists lists, Texts byte strings, Maps
--   association lists for Go maps, Int signed integers.
-- - Auth.RateLimit: `RateLimiter` of internal/auth/middleware.go; `allow` is Allow, `cleanup` is
--   Cleanup. Auth.RateLimit.Window has its theorems.
-- - Auth.Guards: RequireRole, RequirePermission and RequireCSRF of internal/auth/middleware.go, with
--   their theorems.
-- - Auth.Gate: RequireAuth (`require_auth`) and OptionalAuth (`optional_auth`) of the same file, over the
--   log-in service. Admissions and Closed have the theorems.
-- - Auth.Models: internal/auth/models.go.
-- - Auth.Passwords: internal/auth/password.go, where the predicates of package unicode and bcrypt are the
--   fields of a `Library`. Policy has the theorems.
-- - Auth.Jwt: internal/auth/jwt.go. `encode`, `decode`, `sign` and `validate_token` are the methods of
--   those names; base64, HMAC-SHA256 and JSON are the fields of a `Codec`, and `RoundTrips` is what is
--   used of them. Auth.Jwt.RoundTrip has its theorems.
-- - Auth.Service: internal/auth/auth.go. Defs has the store (users, sessions, audit log) and the
--   statements that change a row, Login the handlers `login` (Login), `logout` (Logout), `validate`
--   (ValidateToken) and `refresh_tokens` (RefreshToken). What a call gets from outside, the time, a
--   random identifier and whether a session's insertion, reading and revocation work, is an `Env`; the
--   verification of a password is a field of `Service`; the other statements are taken to succeed.
--   Lockout and Sessions have the theorems.
-- - Processor.Trails: internal/processor/trails.go; `add_sample` is addSample, `record_position`
--   RecordPosition, `cleanup` cleanup. Spacing has the theorems on one trail, Manager those on all.
-- - Processor.Suspects: internal/processor/suspect_correlator.go; `add_observation_with_candidate` is
--   AddObservationWithCandidate, `evaluate` its part after the count. Window and Promotion have the
--   theorems.
-- - Processor.Links: internal/processor/controller_link.go; `correlate` is one round, `score_link`
--   scoreLink, `sort`, `assign` and `clear_unmatched` the three loops. Sorting, Matching, Store and Rounds have
--   the theorems.
-- - Processor.Drones: the sharded drone store of internal/processor/state.go; `set`, `delete_drone`,
--   `get` and `get_by_mac` are the methods set, delete, get and getByMAC of shardedDrones. Refinement
--   and Indexes have the theorems.
-- - Processor.Model: the records of drones, taps and suspects of internal/processor/state.go.
-- - Processor.Merge: what a detection changes in a stored drone, the field rules of UpdateDrone
--   (`update_existing`) and of mergeIntoExisting (`merge_into_existing`). Merge.Kept has the fields that
--   they leave alone, Merge.Beacons the position under WiFi-only beacons.
-- - Processor.State: `StateManager` of internal/processor/state.go; `update_drone` is UpdateDrone. Changes
--   has tags, hiding, range rings, track numbers and taps, Cleanup the clean-up, Candidates the suspects
--   and their promotion. Resolution and Outcomes have the theorems on UpdateDrone, Numbers, Backfill,
--   Calls and Restored the invariant over a start-up and histories of calls, Expiry and Settling the
--   clean-up, Promotions the promotion.
-- - Processor.Spoof: internal/processor/spoof.go. The root has the tracks and the checks, Vendors what a
--   MAC and an SSID claim, Analysis `analyze` (Analyze) and `cleanup` (Cleanup), Tables the tables. Trust
--   has the theorem on the score, Flags those on the flags.
-- - Receiver: internal/receiver/nats.go; `classify_by_trust` is classifyByTrust and `ingest` the part of
--   handleDetection that analyses, classifies and stores a drone. Ingest has the theorems.
-- - Intel.Oui: the MAC prefixes of internal/intel/fingerprint.go.
-- - Intel.Bits, Intel.RemoteId: internal/intel/remoteid_parser.go; a function per message type, and
--   `parse_remote_id_payload` is ParseRemoteIDPayload. WellFormed and Packs have the theorems.
-- - Intel.Dji: internal/intel/dji_parser.go, its two tables in Tables; `parse_dji_drone_id` is
--   ParseDJIDroneID. Models and Encrypted have the theorems.
-- - Auth.Samples, Auth.Runs, Processor.Runs, Intel.Runs and Receiver.Runs have test data, runs and the theorems at
--   concrete inputs.
--
-- Conventions. Time is an argument, in nanoseconds. Where the source takes a lock for a whole
-- operation the operation is one step, and a concurrent history is the sequence of its steps. A map is
-- a list of entries; the theorems do not depend on the order of a Go map's iteration, except that the
-- order of equal scores in a correlation round is that of the list. Floats that are sums or
-- comparisons of constants are fixed-point numbers in a unit that makes them exact, named at the top
-- of the file; distances on the sphere and square roots are arguments. A byte read is a number and
-- the wrap-around of a width is written out (`% 256`, `signed`).
--
-- Fuel. Only the two loops that normalise an angle (`add_turns`, `take_turns`) have fuel, one round
-- each: an angle of 16 bits is less than one turn away from the range. All other loops are structural
-- recursion on the data.
--
-- Not modelled: HTTP handlers, SQL and the database connections, the algorithm of password hashing, the rest of the receiver, the
-- network clients, the floating-point position estimates, generated message code, the sensor and the browser
-- code.
pub mod Common
pub mod Auth
pub mod Intel
pub mod Processor
pub mod Receiver
