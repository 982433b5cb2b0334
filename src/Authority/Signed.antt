-- ===== src/Authority/Signed.antt =====
-- src/authority.rs: what an authority signs verifies under its public key, at its key.
use nexus_auth.Prelude.{◌≡◌, true, some, Text, Bytes, ok, arith}
use nexus_auth.Authority.{
  Authority, Signing, IndexDoc, WhitelistDoc, index_key, service_key, sign_payload, sign_index,
  sign_whitelist, check_cose, verify_cose_sign1,
}

-- What the libraries document: coset reads back what it wrote under the EdDSA header, and Ed25519
-- verifies what it signed, with the public key of the seed.
pub record IsSigningSane {V S : Type 0} (l : Signing V S) : Type 0 where
  pub reads_back :
      (payload signature value : Bytes)
      → l.to_vec payload signature ≡ some value
      → l.from_slice value
        ≡ some (record {
          is_eddsa = true;
          payload = some payload;
          signature = signature;
          tbs_data = λ aad. l.sig_structure aad payload;
        })
  pub public_of : Bytes → V
  pub decodes_key : (seed : Bytes) → l.key_from_bytes (l.verifying_key seed) ≡ some (public_of seed)
  pub signature_of : Bytes → Bytes → S
  pub decodes_signature :
      (seed message : Bytes)
      → l.signature_from_slice (l.sign seed message) ≡ some (signature_of seed message)
  pub verifies_signed :
      (seed message : Bytes)
      → l.verifies (public_of seed) message (signature_of seed message) ≡ true

module _ {V S : Type 0} (l : Signing V S) (sane : IsSigningSane l) where
  pub verify-sign_payload :
      (a : Authority) (aad payload value : Bytes)
      → sign_payload l a aad payload ≡ ok value
      → verify_cose_sign1 l (l.verifying_key a.signing_key) aad value ≡ ok payload
  unfolding sign_payload verify_cose_sign1 check_cose
  verify-sign_payload a aad payload value h =
      let message : Bytes = l.sig_structure aad payload in
      let written : l.to_vec payload (l.sign a.signing_key message) ≡ some value =
        ground (arith, h) in
      ground (
        arith,
        sane.reads_back payload (l.sign a.signing_key message) value written,
        sane.decodes_key a.signing_key,
        sane.decodes_signature a.signing_key message,
        sane.verifies_signed a.signing_key message,
      )

  -- Let coset read back what it wrote and Ed25519 verify what it signed. A whitelist that an
  -- authority signs for a service verifies under its public key at the key of that service, and
  -- gives the document as it was encoded.
  pub verify-sign_whitelist :
      (a : Authority) (service key : Text) (doc : WhitelistDoc) (payload value : Bytes)
      → service_key a service ≡ ok key
      → l.whitelist_cbor doc ≡ some payload
      → sign_whitelist l a service doc ≡ ok value
      → verify_cose_sign1 l (l.verifying_key a.signing_key) key value ≡ ok payload
  unfolding sign_whitelist
  verify-sign_whitelist a service key doc payload value k e h =
      verify-sign_payload a key payload value (ground (arith, h, k, e))

  pub verify-sign_index :
      (a : Authority) (doc : IndexDoc) (payload value : Bytes)
      → l.index_cbor doc ≡ some payload
      → sign_index l a doc ≡ ok value
      → verify_cose_sign1 l (l.verifying_key a.signing_key) (index_key a) value ≡ ok payload
  unfolding sign_index
  verify-sign_index a doc payload value e h =
      verify-sign_payload a (index_key a) payload value (ground (arith, h, e))
