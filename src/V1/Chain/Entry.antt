-- ===== src/V1/Chain/Entry.antt =====
-- `encode_consumption_entry` of sdks/rust/src/v1.rs: the row that an entry becomes, and its hash.
use bounded_authority_protoc.Base.{
  not, ◌&&◌, ltb, ◌==◌, length, any, Bytes, codes, Result, ok, ◌>>=◌, ◌>>◌, refuse,
}
use bounded_authority_protoc.Base.Int.{ℤ, pos, ltb_ℤ, eq_ℤ}
use bounded_authority_protoc.Base64url.{base64url_encode}
use bounded_authority_protoc.Bounds.{Bounds}
use bounded_authority_protoc.Jcs.Encode.{jcs_encode}
use bounded_authority_protoc.Json.Value.{Float64, Json, int, string, object, no_members, member}
use bounded_authority_protoc.Utf8.{from_utf8}
use bounded_authority_protoc.V1.Chain.{Domain, row_domain_hash}
use bounded_authority_protoc.V1.Identifier.{validate_identifier}

pub record ConsumptionEntry : Type 0 where
  pub chain_id : Bytes
  pub commitment : Bytes
  pub previous_hash : Bytes
  pub sequence : ℤ

module _ ⦃fl : Float64⦄ (domain : Domain) where
  abbrev pub entry_row : ConsumptionEntry → Bytes → Bytes → Json
  entry_row entry commitment_str previous_str = object (
      member (codes "chain_id") (string entry.chain_id) (
        member (codes "commitment") (string commitment_str) (
          member (codes "previous") (string previous_str) (
            member (codes "sequence") (int entry.sequence)
              (member (codes "v") (int domain.version) no_members)))))

  unfoldable pub encode_consumption_entry : ConsumptionEntry → Bounds → Result (Bytes × Bytes)
  unfolding validate_identifier base64url_encode from_utf8 jcs_encode
  encode_consumption_entry entry bounds = do
    refuse (ltb_ℤ entry.sequence (pos 1))
    validate_identifier entry.chain_id bounds
    refuse (eq_ℤ entry.sequence (pos 1) && any (λ b. not (b == 0)) entry.previous_hash)
    previous_str ← from_utf8 (base64url_encode entry.previous_hash)
    commitment_str ← from_utf8 (base64url_encode entry.commitment)
    canonical ← jcs_encode bounds (entry_row entry commitment_str previous_str)
    refuse (ltb bounds.chain_row_bytes (length canonical))
    ok (canonical, row_domain_hash domain canonical)
