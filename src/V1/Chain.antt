-- ===== src/V1/Chain.antt =====
-- `check_chain` and `parse_row` of sdks/rust/src/v1.rs: the consumption chain. SHA-256, the
-- prefix of the hashed rows and their version are the parameter `domain`.
pub mod Rows
pub mod Tamper
pub mod Sequence
pub mod Canonical
pub mod Entry
use bounded_authority_protoc.Base.{
  ℕ, suc, ◌+◌, Bool, true, false, not, ◌&&◌, ◌||◌, Option, none, some, List, [], ◌∷◌, ◌++◌, ltb,
  ◌==◌, if◌then◌else◌, length, any, Bytes, codes, equal, Result, ok, invalid, ◌>>=◌, ◌>>◌, refuse,
  ok_or,
}
use bounded_authority_protoc.Base.Int.{ℤ, pos, ltb_ℤ, eq_ℤ, checked_add}
use bounded_authority_protoc.Base64url.{base64url_decode}
use bounded_authority_protoc.Bounds.{Bounds, resolve_bounds}
use bounded_authority_protoc.Json.Value.{Float64, Json, Members, as_object, as_string, as_int}
use bounded_authority_protoc.Json.Decode.{json_decode}
use bounded_authority_protoc.Jcs.Encode.{jcs_encode}
use bounded_authority_protoc.V1.Identifier.{validate_identifier}

pub record ChainInput : Type 0 where
  pub rows : List Bytes

pub record ExpectedChain : Type 0 where
  pub chain_id : Bytes
  pub first_sequence : ℤ
  pub last_sequence : ℤ
  pub row_count : ℤ
  pub previous_hash : Bytes
  pub head_hash : Bytes
  pub bounds : Option Bounds

-- `trust` has one value, `NotEvaluated`.
pub record ChainFacts : Type 0 where
  pub chain_id : Bytes
  pub row_count : ℤ
  pub first_sequence : ℤ
  pub last_sequence : ℤ
  pub previous_hash : Bytes
  pub head_hash : Bytes

pub record ParsedRow : Type 0 where
  pub chain_id : Bytes
  pub previous : Bytes
  pub sequence : ℤ
  pub hash : Bytes

-- What differs between the contract majors: the prefix of the hashed rows and their claim `v`; and SHA-256.
pub record Domain : Type 0 where
  pub sha256 : Bytes → Bytes
  pub digest_prefix : Bytes
  pub version : ℤ

-- `CHAIN_DIGEST_PREFIX`.
abbrev pub chain_digest_prefix : Bytes
chain_digest_prefix = codes "BAP1-CHAIN" ++ (0 ∷ [])

abbrev pub chain1 : (Bytes → Bytes) → Domain
chain1 sha256 = record { sha256 = sha256; digest_prefix = chain_digest_prefix; version = pos 1 }

abbrev pub row_domain_hash : Domain → Bytes → Bytes
row_domain_hash domain canonical_row = domain.sha256 (domain.digest_prefix ++ canonical_row)

-- The members of a row that the loop has met.
pub record Slots ⦃fl : Float64⦄ : Type 0 where
  pub chain_id : Option Json
  pub commitment : Option Json
  pub previous : Option Json
  pub sequence : Option Json
  pub version : Option Json

module _ ⦃fl : Float64⦄ where
  abbrev pub no_slots : Slots
  no_slots = record {
    chain_id = none;
    commitment = none;
    previous = none;
    sequence = none;
    version = none;
  }

  unfoldable pub put : Bytes → Json → Slots → Result Slots
  unfolding equal
  put name val s =
      if equal name (codes "chain_id")
      then ok (record s { chain_id = some val })
      else if equal name (codes "commitment")
      then ok (record s { commitment = some val })
      else if equal name (codes "previous")
      then ok (record s { previous = some val })
      else if equal name (codes "sequence")
      then ok (record s { sequence = some val })
      else if equal name (codes "v")
      then ok (record s { version = some val })
      else invalid

  unfoldable pub collect : Members → Slots → Result Slots
  unfolding put
  collect [] s = ok s
  collect ((name, val) ∷ ms) s = do s' ← put name val s; collect ms s'

  unfoldable pub take_b64url_32 : Option Json → Result Bytes
  unfolding base64url_decode
  take_b64url_32 value = do
    v ← ok_or value
    s ← as_string v
    raw ← base64url_decode s
    refuse (not (length raw == 32))
    ok raw

  module _ (domain : Domain) where
    unfoldable pub parse_row : Bytes → Bounds → Result ParsedRow
    unfolding json_decode collect take_b64url_32 jcs_encode
    parse_row row bounds = do
      value ← json_decode bounds row
      members ← as_object value
      s ← collect members no_slots
      version ← ok_or s.version
      v ← as_int version
      refuse (not (eq_ℤ v domain.version))
      chain_id_value ← ok_or s.chain_id
      chain_id ← as_string chain_id_value
      sequence_value ← ok_or s.sequence
      sequence ← as_int sequence_value
      _ ← take_b64url_32 s.commitment
      previous ← take_b64url_32 s.previous
      reencoded ← jcs_encode bounds value
      refuse (not (equal reencoded row))
      ok (record {
        chain_id = chain_id;
        previous = previous;
        sequence = sequence;
        hash = row_domain_hash domain row;
      })

    unfoldable pub parse_rows : List Bytes → Bounds → Result (List ParsedRow)
    unfolding parse_row
    parse_rows [] bounds = ok []
    parse_rows (row ∷ rows) bounds = do
      p ← parse_row row bounds
      ps ← parse_rows rows bounds
      ok (p ∷ ps)

unfoldable pub check_identities : Bytes → Bounds → List ParsedRow → Result (Unit {0})
unfolding validate_identifier
check_identities chain_id bounds [] = ok tt
check_identities chain_id bounds (p ∷ ps) = do
  validate_identifier p.chain_id bounds
  refuse (not (equal p.chain_id chain_id))
  check_identities chain_id bounds ps

-- The rows from the `i`-th on.
unfoldable pub check_sequences : ℤ → ℕ → List ParsedRow → Result (Unit {0})
unfolding checked_add
check_sequences first i [] = ok tt
check_sequences first i (p ∷ ps) = do
  want ← ok_or (checked_add first (pos i))
  refuse (not (eq_ℤ p.sequence want))
  check_sequences first (i + 1) ps

-- Each row's `previous` is the hash of the row before it.
unfoldable pub check_links : ParsedRow → List ParsedRow → Result (Unit {0})
check_links before [] = ok tt
check_links before (p ∷ ps) = do refuse (not (equal p.previous before.hash)); check_links p ps

abbrev pub last_row : ParsedRow → List ParsedRow → ParsedRow
last_row p [] = p
last_row p (q ∷ ps) = last_row q ps

unfoldable pub check_genesis : ParsedRow → ExpectedChain → Result (Unit {0})
check_genesis first expected = do
  refuse (ltb_ℤ expected.first_sequence (pos 1))
  refuse (eq_ℤ expected.first_sequence (pos 1) && any (λ b. not (b == 0)) expected.previous_hash)
  refuse (not (equal first.previous expected.previous_hash))

-- The checks on the parsed rows; `parsed[0]` of no row would panic, and the rows are nonempty.
unfoldable pub check_parsed : List ParsedRow → ExpectedChain → Bounds → Result ChainFacts
unfolding check_identities check_sequences check_genesis check_links
check_parsed [] expected bounds = invalid
check_parsed (first ∷ others) expected bounds = do
  validate_identifier expected.chain_id bounds
  check_identities expected.chain_id bounds (first ∷ others)
  check_sequences expected.first_sequence 0 (first ∷ others)
  check_genesis first expected
  check_links first others
  refuse (not (eq_ℤ (pos (length (first ∷ others))) expected.row_count))
  refuse (not (eq_ℤ (last_row first others).sequence expected.last_sequence))
  refuse (not (equal (last_row first others).hash expected.head_hash))
  ok (record {
    chain_id = expected.chain_id;
    row_count = pos (length (first ∷ others));
    first_sequence = expected.first_sequence;
    last_sequence = expected.last_sequence;
    previous_hash = expected.previous_hash;
    head_hash = expected.head_hash;
  })

abbrev pub too_long : ℕ → List Bytes → Bool
too_long limit rows = any (λ row. ltb limit (length row)) rows

module _ ⦃fl : Float64⦄ (domain : Domain) where
  unfoldable pub check_chain : ChainInput → ExpectedChain → Result ChainFacts
  unfolding parse_rows check_parsed
  check_chain input expected = do
    let bounds = resolve_bounds expected.bounds
    refuse (length input.rows == 0 || ltb bounds.chain_rows (length input.rows))
    refuse (too_long bounds.chain_row_bytes input.rows)
    parsed ← parse_rows domain input.rows bounds
    check_parsed parsed expected bounds
