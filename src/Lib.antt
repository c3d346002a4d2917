-- ===== src/Lib.antt =====
-- The Rust SDK of the bounded authority protocol (sdks/rust/src), modelled and verified.
--
-- The SDK decodes and verifies signed grants, proofs and consumption chains. Its parts stand on one
-- another as follows, each with the file that models it:
--   error.rs        the one error `Invalid`                             Base/Outcome
--   base64url.rs    canonical unpadded base64url                        Base64url
--   bounds.rs       the limits that every operation takes               Bounds
--   json.rs         the bounded JSON decoder                            Json and the files below it
--   jcs.rs          the canonical encoder (RFC 8785)                    Jcs and the files below it
--   selector.rs     the selector algebra of majors 1 and 2              Selector and the files below it
--   compact.rs      three segments with dots between them               Compact
--   uri.rs          the normal form of target URIs                      Uri and the files below it
--   digest.rs       the typed projection and the request digests        Digest
--   ed25519.rs      the gate in front of Ed25519 verification           Ed25519
--   es256.rs        the gate in front of P-256 verification             Es256
--   jwk.rs          Ed25519 keys as JSON Web Keys, thumbprints          Jwk
--   v1.rs           the facade of major 1, in part:
--     the claims of grants and proofs: take_*, validate_*               V1/Claims
--     untrusted_key_locator, decode_grant, verify_grant                 V1/Grant
--     decode_proof and its loopback variant                             V1/Proof
--     check_envelope and its loopback variant                           V1/Envelope
--     check_chain, parse_row, encode_consumption_entry                  V1/Chain
--     grant_signing_input                                               V1/Producer
--     key_path_ok                                                       V1/KeyPath
--     anchor_matches, transition_matches, in_interval                   V1/Anchors
--     verify_historical_anchor, verify_key_transition                   V1/Anchors/Historical, Transition
--     check_export_chronology                                           V1/Anchors/Chronology
--     frame_into, read_frame, read_frame_bounded                        V1/Frames
--     split_three_segments, scan_compact, decode_segment, ...           V1/Segments
--     validate_identifier and the checks that it calls                  V1/Identifier
--   v2.rs           major 2: grants, proofs, envelopes, anchors, chains V2
--   v3.rs           major 3: the same, and its P-256 keys               V3
-- The three majors repeat one text with other constants and callees. What differs is the record `Major`
-- (Major), which the definitions of V1/Claims, V1/Grant, V1/Proof, V1/Envelope and V1/Anchors take;
-- `major1`, `major2` and `major3` are its values, and the names of V2 and V3 are the definitions at the
-- last two. So each theorem on them is of all majors.
-- An envelope is a grant and a holder proof: the grant is verified and taken apart, the proof is taken
-- apart, and each field of the proof is compared with the grant, with the digest of the expected request
-- or with the expectation. The checks on an object read its members into variables, one for each known
-- name (Json/Closed).
-- Utf8 has `push_utf8` of json.rs and what the crate uses of the language's strings; Base has the names
-- that all files share. Theorems stand in the files below the definitions that they are about, tests
-- in Tests.
-- The decoder takes its limits from the bounds, the encoder too; selectors are decoded values that are
-- encoded once more when they are validated; a row of a consumption chain is decoded, its members are
-- collected, and what was decoded is encoded again and compared with the row; the hash of each row is
-- the next row's predecessor.
--
-- How the code is written here. A byte string, and a `String` as its UTF-8 bytes, is a list of native
-- numbers. `Result<T>` is `Result T`, and `?` is its bind. A cursor into a buffer is the list of the
-- bytes that follow it. An `i64` is an integer over the native numbers, with its range written out
-- where the source checks it; a `u64` that only meets limits is a native number. Definitions have the
-- names of the functions that they translate; a part of a function that is a definition of its own is
-- named for what it does.
--
-- Loops that do not go down on their input run on fuel. The decoder (Json/Decode) gets three calls for
-- each byte of the text and one, which is enough since each value, array and object takes a byte;
-- running out of it is an outcome of its own, `out_of_fuel`. The string loop, and the decoding of
-- UTF-8, get the length of their input, and every round takes a byte. Printing a number gets one more
-- than the number, and every round divides it by ten. The removal of dot segments (Uri/Dots) gets the
-- length of the path, and every round leaves a shorter input.
--
-- Parameters. Floats are the interface `Float64` (Json/Value): parsing, comparison and printing belong
-- to the language and to the crate ryu-js. SHA-256 and what is called of ed25519-dalek are the interface
-- `Crypto` (Crypto), and of the chain the record `Domain` (V1/Chain), with the prefix and the version of
-- a major's rows; what is called of p256 is the interface
-- `P256` (Es256). A key or a digest, an array of a fixed width in the source, is a list of bytes.
--
-- Not modelled: of v1.rs the producers of signing inputs but grant_signing_input, assemble_compact, and
-- the anchored export; of v2.rs and v3.rs these and the key paths and frames, which repeat v1.rs; the
-- attestation profiles; torsion_free of ed25519.rs, which no verifier calls. The time that
-- `constant_time_eq` takes has no counterpart here.
pub mod Base
pub mod Base64url
pub mod Json
pub mod Bounds
pub mod Utf8
pub mod Jcs
pub mod Selector
pub mod Compact
pub mod Uri
pub mod Crypto
pub mod Ed25519
pub mod Jwk
pub mod Digest
pub mod Major
pub mod V1
pub mod Es256
pub mod V2
pub mod V3
mod Tests
