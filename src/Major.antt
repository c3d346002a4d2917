-- ===== src/Major.antt =====
-- What a contract major fixes: the constants and the calls in which sdks/rust/src/v1.rs, v2.rs and v3.rs differ where
-- they check grants, proofs and envelopes.
use bounded_authority_protoc.Base.{Bytes, codes, Result, Bool, true, false}
use bounded_authority_protoc.Base.Int.{ℤ, pos}
use bounded_authority_protoc.Bounds.{Bounds}
use bounded_authority_protoc.Crypto.{Crypto}
use bounded_authority_protoc.Digest.{request_digest, request_digest_successor}
use bounded_authority_protoc.Ed25519.{verify}
use bounded_authority_protoc.Json.Value.{Float64, Json}
use bounded_authority_protoc.Jwk.{jwk_decode_public, thumbprint_raw}
use bounded_authority_protoc.Selector.Evaluate.{validate, validate_v2, evaluate, evaluate_v2}

pub record Major ⦃fl : Float64⦄ : Type 0 where
  -- The claim `v` and the header member `alg`.
  pub version : ℤ
  pub alg : Bytes
  pub selector_validate : Json → Bounds → Result (Unit {0})
  pub selector_evaluate : Json → Json → Bounds → Result Bool
  pub request_digest : Bytes → Json → Bounds → Result Bytes
  -- For a key, a message and a signature.
  pub verify : Bytes → Bytes → Bytes → Result (Unit {0})
  pub jwk_decode_public : Bytes → Result Bytes
  pub thumbprint_raw : Bytes → Result Bytes
  -- Whether the payload of an anchor is checked for a hash at sequence 0.
  pub genesis_gate : Bool

abbrev pub typ_grant : Bytes
typ_grant = codes "ba+cap"

abbrev pub typ_proof : Bytes
typ_proof = codes "dpop+jwt"

abbrev pub typ_chain_anchor : Bytes
typ_chain_anchor = codes "ba+chain-anchor"

abbrev pub typ_key_transition : Bytes
typ_key_transition = codes "ba+key-transition"

abbrev pub typ_local_loopback_http_proof : Bytes
typ_local_loopback_http_proof = codes "ba+loopback-proof"

module _ ⦃fl : Float64⦄ ⦃cr : Crypto⦄ where
  abbrev pub major1 : Major
  major1 = record {
    version = pos 1;
    alg = codes "EdDSA";
    selector_validate = validate;
    selector_evaluate = evaluate;
    request_digest = request_digest;
    verify = verify;
    jwk_decode_public = jwk_decode_public;
    thumbprint_raw = thumbprint_raw;
    genesis_gate = false;
  }

  abbrev pub major2 : Major
  major2 = record {
    version = pos 2;
    alg = codes "EdDSA";
    selector_validate = validate_v2;
    selector_evaluate = evaluate_v2;
    request_digest = request_digest_successor;
    verify = verify;
    jwk_decode_public = jwk_decode_public;
    thumbprint_raw = thumbprint_raw;
    genesis_gate = true;
  }
