-- ===== src/Credentials/Envelope.antt =====
-- internal/core/credentials/crypto.go. AES-256-GCM and the JSON of an envelope are parameters; with
-- a key of 32 bytes the constructors of the cipher return no error. A nonce is drawn by the caller,
-- none where the source of randomness fails. Versions are int64 words.
use control_center.Common.{
  ℕ, ◌/◌, ◌%◌, not, Option, none, some, List, [], ◌∷◌, ◌++◌, if◌then◌else◌, ◌==◌, ==_iff, Eq, Bytes,
  length, lookup,
}

instance abbrev pub int_key : Eq ℕ
int_key = record { beq = λ a b. a == b; beq_iff = ==_iff }

-- binary.BigEndian.PutUint32 of the low 32 bits.
abbrev pub put_uint32 : ℕ → Bytes
put_uint32 n = n / 16777216 % 256 ∷ n / 65536 % 256 ∷ n / 256 % 256 ∷ n % 256 ∷ []

-- binary.BigEndian.PutUint64
abbrev pub put_uint64 : ℕ → Bytes
put_uint64 n = put_uint32 (n / 4294967296) ++ put_uint32 n

-- appendLP
unfoldable pub append_lp : Bytes → Bytes → Bytes
append_lp b s = (b ++ put_uint32 (length s)) ++ s

-- Where a secret is kept.
pub record Place : Type 0 where
  pub table : Bytes
  pub id : Bytes
  pub kind : Bytes
  pub provider : Bytes
  pub cred_version : ℕ

-- bindAAD
unfoldable pub bind_aad : Place → (key_version : ℕ) → Bytes
bind_aad p key_version =
    append_lp (append_lp (append_lp (append_lp [] p.table) p.id) p.kind) p.provider
    ++ (put_uint64 p.cred_version ++ put_uint64 key_version)

abbrev pub envelope_format : ℕ
envelope_format = 1

pub record Envelope : Type 0 where
  pub format_version : ℕ
  pub key_version : ℕ
  pub nonce : Bytes
  pub ciphertext : Bytes

pub data CryptoError : Type 0 where
  err_master_key : CryptoError
  err_nonce : CryptoError
  err_envelope : CryptoError

pub data Crypto (A : Type 0) : Type 0 where
  ok : A → Crypto A
  err : CryptoError → Crypto A

-- The part of the Store that holds the master keys.
pub record Keys : Type 0 where
  pub keys : List (ℕ × Bytes)
  pub active : ℕ

-- gcm.Seal and gcm.Open with their key and nonce, and json.Marshal and json.Unmarshal of an
-- envelope.
pub record Library : Type 0 where
  pub seal : (key nonce plain aad : Bytes) → Bytes
  pub open_sealed : (key nonce ciphertext aad : Bytes) → Option Bytes
  pub marshal : Envelope → Bytes
  pub unmarshal : Bytes → Option Envelope

-- `key, ok := s.keys[version]; if !ok || len(key) != 32`
unfoldable pub key_at : Keys → ℕ → Option Bytes
key_at s version = elim (lookup version s.keys) [
  | none ↦ none
  | some key ↦ if length key == 32 then some key else none
]

module _ (lib : Library) where
  unfoldable pub encrypt : Keys → (nonce : Option Bytes) → (plain : Bytes) → Place → Crypto Bytes
  encrypt s nonce plain p = elim (key_at s s.active) [
    | none ↦ err err_master_key
    | some key ↦ elim nonce [
      | none ↦ err err_nonce
      | some n ↦ ok (
          lib.marshal (record {
            format_version = envelope_format;
            key_version = s.active;
            nonce = n;
            ciphertext = lib.seal key n plain (bind_aad p s.active);
          }))
    ]
  ]

  -- The part of decrypt after the envelope is parsed.
  unfoldable pub open_envelope : Keys → Envelope → Place → Crypto Bytes
  open_envelope s env p =
      if not (env.format_version == envelope_format)
      then err err_envelope
      else elim (key_at s env.key_version) [
        | none ↦ err err_master_key
        | some key ↦
            elim (lib.open_sealed key env.nonce env.ciphertext (bind_aad p env.key_version)) [
              | none ↦ err err_envelope
              | some plain ↦ ok plain
            ]
      ]

  unfoldable pub decrypt : Keys → (raw : Bytes) → Place → Crypto Bytes
  decrypt s raw p = elim (lib.unmarshal raw) [
    | none ↦ err err_envelope
    | some env ↦ open_envelope s env p
  ]
