-- ===== src/LfsPointer/Payload.antt =====
-- A pointer against the payload that it stands for. SHA-256 is a parameter, of which it is used
-- that it prints as 64 lower-case hexadecimal digits.
use clotho.Prelude.{◌<◌, ◌≡◌, ◌↔◌, length, arith}
use clotho.Prelude.Bytes.{Bytes, beq_iff}
use clotho.Prelude.Decimal.{u64_mod}
use clotho.Prelude.Results.{ok, ◌>>=◌}
use clotho.LfsPointer.{LfsPointer, for_payload, verify_payload, parse, encode}
use clotho.LfsPointer.Fields.{IsHash}
use clotho.LfsPointer.RoundTrip.{parse-encode}

module _ (sha256_hex : Bytes → Bytes) where
  -- A payload passes exactly when its length and its SHA-256 are those of the pointer.
  pub verify_payload-eq-ok_iff :
      (p : LfsPointer) (payload : Bytes)
      → (verify_payload sha256_hex p payload ≡ ok tt)
        ↔ ((length payload ≡ p.size) × (sha256_hex payload ≡ p.oid_sha256))
  unfolding verify_payload
  verify_payload-eq-ok_iff p payload = (
    λ e. (ground arith, ground (arith, (beq_iff (sha256_hex payload) p.oid_sha256).0)),
    λ h. ground (arith, (beq_iff (sha256_hex payload) p.oid_sha256).1),
  )

  -- A payload is accepted by the pointer that was made for another one, written and read again,
  -- exactly if the two have the same length and the same SHA-256.
  pub verify-parse-encode :
      (stored payload arachne_hash : Bytes)
      → ((d : Bytes) → IsHash (sha256_hex d))
      → IsHash arachne_hash
      → length stored < u64_mod
      → ((parse (encode (for_payload sha256_hex stored arachne_hash)) >>= λ p.
            verify_payload sha256_hex p payload)
          ≡ ok tt)
        ↔ ((length payload ≡ length stored) × (sha256_hex payload ≡ sha256_hex stored))
  unfolding for_payload
  verify-parse-encode stored payload hash sha valid fits =
      rw
        (parse-encode (for_payload sha256_hex stored hash)
          (record { oid = sha stored; size = fits; arachne_hash = valid }))
        (verify_payload-eq-ok_iff (for_payload sha256_hex stored hash) payload)
