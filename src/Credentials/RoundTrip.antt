-- ===== src/Credentials/RoundTrip.antt =====
-- encrypt and decrypt of internal/core/credentials/crypto.go, against what AES-GCM and
-- encoding/json promise.
use control_center.Common.{
  ◌<◌, ◌≡◌, ◌≢◌, inl, inr, Option-cases, Option, none, some, arith, Bytes, lookup,
}
use control_center.Common.Word.{mod64}
use control_center.Credentials.Envelope.{
  int_key, Place, bind_aad, Envelope, envelope_format, Library, Keys, ok, err, err_envelope, key_at,
  encrypt, open_envelope, decrypt,
}
use control_center.Credentials.Binding.{IsShort, bind_aad-inj}

-- The documented behaviour of the libraries: an envelope survives its JSON, a sealed text opens
-- with the data that it was sealed with, and not with other data.
pub record Promises (lib : Library) : Type 0 where
  pub unmarshal-marshal : (e : Envelope) → lib.unmarshal (lib.marshal e) ≡ some e
  pub opens :
      (key nonce plain aad : Bytes)
      → lib.open_sealed key nonce (lib.seal key nonce plain aad) aad ≡ some plain
  pub authentic :
      (key nonce plain aad other : Bytes)
      → other ≢ aad
      → lib.open_sealed key nonce (lib.seal key nonce plain aad) other ≡ none

module _ (lib : Library) (promises : Promises lib) where
  -- The envelope that encrypt has written.
  record IsSealed (s : Keys) (plain raw : Bytes) (p : Place) : Type 0 where
    key : Bytes
    used : key_at s s.active ≡ some key
    nonce : Bytes
    written :
        lib.unmarshal raw
        ≡ some (record {
          format_version = envelope_format;
          key_version = s.active;
          nonce = nonce;
          ciphertext = lib.seal key nonce plain (bind_aad p s.active);
        })

  encrypt-IsSealed :
      (s : Keys) (nonce : Option Bytes) (plain raw : Bytes) (p : Place)
      → encrypt lib s nonce plain p ≡ ok raw
      → IsSealed s plain raw p
  unfolding encrypt
  encrypt-IsSealed s none plain raw p h = absurd (ground arith)
  encrypt-IsSealed s (some n) plain raw p h = elim (Option-cases (key_at s s.active)) [
    | inl e ↦ absurd (ground arith)
    | inr (k, e) ↦ record {
      key = k;
      used = e;
      nonce = n;
      written = ground (
        arith,
        promises.unmarshal-marshal (record {
          format_version = envelope_format;
          key_version = s.active;
          nonce = n;
          ciphertext = lib.seal k n plain (bind_aad p s.active);
        }),
      );
    }
  ]

  module _ (s later : Keys) (nonce : Option Bytes) (plain raw : Bytes) (p : Place)
      (h : encrypt lib s nonce plain p ≡ ok raw)
      (same : lookup s.active later.keys ≡ lookup s.active s.keys) where
    key_at-later : key_at later s.active ≡ key_at s s.active
    unfolding key_at
    key_at-later = ground (arith, same)

    -- Where AES-GCM and encoding/json keep their promises, what was encrypted at a place is read
    -- back there, by any store that still has the key that was active then, whichever key is active
    -- now.
    pub decrypt-encrypt : decrypt lib later raw p ≡ ok plain
    unfolding decrypt open_envelope
    decrypt-encrypt =
        let e = encrypt-IsSealed s nonce plain raw p h in
        ground (
          arith,
          e.written,
          e.used,
          key_at-later,
          promises.opens e.key e.nonce plain (bind_aad p s.active),
        )

    -- Where AES-GCM and encoding/json keep their promises, a secret that is moved to another table,
    -- row, kind, provider or version is refused as a bad envelope, by the same stores; the strings
    -- of both places are shorter than 4 GiB and the versions are int64 words.
    pub moved-IsRefused :
        (q : Place)
        → s.active < mod64
        → IsShort p
        → IsShort q
        → q ≢ p
        → decrypt lib later raw q ≡ err err_envelope
    unfolding decrypt open_envelope
    moved-IsRefused q word sp sq ne =
        let e = encrypt-IsSealed s nonce plain raw p h in
        let differs = λ (b : bind_aad q s.active ≡ bind_aad p s.active).
          ne ((bind_aad-inj q p s.active s.active sq sp word word b).0) in
        ground (
          arith,
          e.written,
          e.used,
          key_at-later,
          promises.authentic e.key e.nonce plain (bind_aad p s.active) (bind_aad q s.active)
              differs,
        )
