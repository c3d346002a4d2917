-- ===== src/Tests/Codecs.antt =====
-- The properties of base64url, UTF-8, compacts and frames at concrete inputs.
use bounded_authority_protoc.Base.{
  ℕ, zero, suc, ◌^◌, ◌≡◌, ◌<◌, ◌≤◌, ◌↔◌, refl, some, List, [], ◌∷◌, ◌++◌, arith, length, replicate,
  Bytes, IsByte, IsBytes, codes, ok, invalid, equal,
}
use bounded_authority_protoc.Base64url.{
  base64url_encode, base64url_decode, decode_char, decode_loop, index,
}
use bounded_authority_protoc.Base64url.RoundTrip.{decode-eq-ok_iff}
use bounded_authority_protoc.Utf8.{push_all, chars?}
use bounded_authority_protoc.Utf8.Laws.{chars?-push_all}
use bounded_authority_protoc.Compact.{
  SigningInput, grant, parse_compact, compact_text, compose_compact,
}
use bounded_authority_protoc.Compact.Segments.{
  IsSegment, Undotted, parse_compact-eq-ok_iff, compose_compact-parse_compact,
}
use bounded_authority_protoc.Bounds.{maximum}
use bounded_authority_protoc.V1.Segments.Scanning.{Scanned, scan_compact-eq-ok_iff}
use bounded_authority_protoc.V1.Segments.{scan_compact, split_three_segments, signing_input_bytes}
use bounded_authority_protoc.V1.Segments.Splitting.{split_three_segments-eq-ok_iff}
use bounded_authority_protoc.V1.Frames.{frame_into, read_frame_bounded}
use bounded_authority_protoc.V1.Frames.RoundTrip.{read_frame_bounded-eq-ok_iff}

decode_noncanonical : base64url_decode (codes "AR") ≡ invalid
unfolding base64url_decode decode_loop decode_char equal base64url_encode index
decode_noncanonical = refl

parse_three : parse_compact (codes "AQ.Ag.Aw") ≡ ok (codes "AQ", codes "Ag", codes "Aw")
unfolding parse_compact base64url_decode decode_loop decode_char equal base64url_encode index
parse_three = refl

parse_four : parse_compact (codes "AQ.Ag.Aw.") ≡ invalid
unfolding parse_compact
parse_four = refl

read_second :
    read_frame_bounded (frame_into (codes "b") (frame_into (codes "row") [])) 3
    ≡ ok (codes "row", frame_into (codes "b") [])
unfolding read_frame_bounded frame_into
read_second = refl

abbrev one_two : Bytes
one_two = 1 ∷ 2 ∷ []

decode-eq-ok_iff_example :
    (base64url_decode (codes "AQI") ≡ ok one_two)
    ↔ (IsBytes one_two × (base64url_encode one_two ≡ codes "AQI"))
decode-eq-ok_iff_example = decode-eq-ok_iff (codes "AQI") one_two

abbrev accents : List ℕ
accents = 104 ∷ 233 ∷ 8364 ∷ 128512 ∷ []

chars?-push_all_example : chars? (push_all accents) ≡ some accents
chars?-push_all_example = chars?-push_all accents (ground arith)

parse_compact-eq-ok_iff_example :
    (parse_compact (codes "AQ.Ag.Aw") ≡ ok (codes "AQ", codes "Ag", codes "Aw")) ↔ (
      (IsSegment (codes "AQ") × IsSegment (codes "Ag") × IsSegment (codes "Aw"))
      × (codes "AQ" ++ (b'.' ∷ (codes "Ag" ++ (b'.' ∷ codes "Aw"))) ≡ codes "AQ.Ag.Aw"))
parse_compact-eq-ok_iff_example =
    parse_compact-eq-ok_iff (codes "AQ.Ag.Aw") (codes "AQ") (codes "Ag") (codes "Aw")

abbrev input : SigningInput
input = record { kind = grant; protected_segment = codes "AQ"; payload_segment = codes "Ag" }

abbrev signature : Bytes
signature = replicate 64 7

protected_IsSegment : IsSegment (codes "AQ")
unfolding base64url_encode index
protected_IsSegment = (1 ∷ [], ((omega arith, tt), λ e. cc), refl)

payload_IsSegment : IsSegment (codes "Ag")
unfolding base64url_encode index
payload_IsSegment = (2 ∷ [], ((omega arith, tt), λ e. cc), refl)

replicate-IsBytes : (n b : ℕ) → IsByte b → IsBytes (replicate n b)
replicate-IsBytes zero b h = tt
replicate-IsBytes (suc n) b h = (h, replicate-IsBytes n b h)

compose_compact-parse_compact_example :
    (compose_compact input signature ≡ ok (compact_text input signature))
    × (parse_compact (compact_text input signature)
        ≡ ok (codes "AQ", codes "Ag", base64url_encode signature))
compose_compact-parse_compact_example =
    compose_compact-parse_compact input signature protected_IsSegment payload_IsSegment
      (replicate-IsBytes 64 7 (omega arith)) refl

abbrev framed : Bytes
framed = 0 ∷ 0 ∷ 0 ∷ 2 ∷ 10 ∷ 11 ∷ 12 ∷ []

read_frame_bounded-eq-ok_iff_example :
    (read_frame_bounded framed 4 ≡ ok (10 ∷ 11 ∷ [], 12 ∷ [])) ↔ (
      ((0 < length {A = ℕ} (10 ∷ 11 ∷ []))
        × (length {A = ℕ} (10 ∷ 11 ∷ []) ≤ 4)
        × (length {A = ℕ} (10 ∷ 11 ∷ []) < 2 ^ 32))
      × (frame_into (10 ∷ 11 ∷ []) [] ++ (12 ∷ []) ≡ framed))
read_frame_bounded-eq-ok_iff_example =
    read_frame_bounded-eq-ok_iff framed (10 ∷ 11 ∷ []) (12 ∷ []) 4 (ground arith)

split_three_segments-eq-ok_iff_example :
    (split_three_segments (codes "h..") ≡ ok (codes "h", [], [])) ↔ (
      (Undotted (codes "h") × Undotted [] × Undotted [])
      × (signing_input_bytes (codes "h") [] ++ (b'.' ∷ []) ≡ codes "h.."))
split_three_segments-eq-ok_iff_example =
    split_three_segments-eq-ok_iff (codes "h..") (codes "h") [] []

scan_compact-eq-ok_iff_example :
    (scan_compact (codes "h.!.s") maximum ≡ ok tt)
    ↔ ((length (codes "h.!.s") ≤ maximum.compact_bytes) × Scanned (codes "h.!.s") maximum)
scan_compact-eq-ok_iff_example = scan_compact-eq-ok_iff (codes "h.!.s") maximum

scan_accepted : scan_compact (codes "h.!.s") maximum ≡ ok tt
unfolding scan_compact
scan_accepted = refl
