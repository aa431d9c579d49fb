-- ===== src/Webhook/Signatures.antt =====
-- Which signatures `validSignature` accepts.
use brazier.Base.{
  ℕ, Text, text, ◌∙◌, ap, ◌≡◌, true, List, ◌++◌, Bool-cases, Option-cases, some, inl, inr,
  has_prefix, trim_prefix,
}
use brazier.Base.Strings.Affixes.{has_prefix_iff, trim_prefix-append}
use brazier.Webhook.{Codecs, valid_signature}

-- The signature is "sha256=" and a number in hexadecimal digits that equals the HMAC of the body.
pub record IsSigned (codecs : Codecs) (secret body signature : Text) : Type 0 where
  pub digits : Text
  pub written : signature ≡ text "sha256=" ++ digits
  pub got : List ℕ
  pub decoded : codecs.decode_hex digits ≡ some got
  pub equal : codecs.hmac_equal got (codecs.hmac secret body) ≡ true

module _ (codecs : Codecs) (secret : Text) where
  pub valid_signature-IsSigned :
      (body sig : Text)
      → valid_signature codecs secret body sig ≡ true
      → IsSigned codecs secret body sig
  unfolding valid_signature
  valid_signature-IsSigned body sig h = elim (Bool-cases (has_prefix sig (text "sha256="))) [
    | inr other ↦ cc (rw (valid_signature, other) at h)
    | inl marked ↦
        let (digits, e) = (has_prefix_iff sig (text "sha256=")).0 marked in
        let trimmed =
          ap (λ s. trim_prefix s (text "sha256=")) e ∙ trim_prefix-append (text "sha256=") digits in
        elim (Option-cases (codecs.decode_hex digits)) [
          | inl e' ↦ cc (rw (valid_signature, marked, trimmed, e') at h)
          | inr (got, e') ↦ record {
            digits = digits;
            written = e;
            got = got;
            decoded = e';
            equal = rw (valid_signature, marked, trimmed, e') at h;
          }
        ]
  ]

  pub IsSigned-valid_signature :
      (body sig : Text)
      → IsSigned codecs secret body sig
      → valid_signature codecs secret body sig ≡ true
  unfolding valid_signature
  IsSigned-valid_signature body sig h =
      let marked = (has_prefix_iff sig (text "sha256=")).1 (h.digits, h.written) in
      let trimmed =
        ap (λ s. trim_prefix s (text "sha256=")) h.written
        ∙ trim_prefix-append (text "sha256=") h.digits in
      rw (valid_signature, marked, trimmed, h.decoded) h.equal
