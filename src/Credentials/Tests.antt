-- ===== src/Credentials/Tests.antt =====
-- Runs of the model of internal/core/credentials at concrete inputs, with libraries that keep every
-- promise and hide nothing.
use control_center.Common.{
  ℕ, zero, suc, ◌≡◌, ◌≢◌, refl, ap, Option, none, some, [], ◌∷◌, ◌++◌, arith, if◌then◌else◌, ◌==◌,
  Bytes, codes, length, take, bytes_eq, bytes_eq_iff, lookup,
}
use control_center.Credentials.Envelope.{
  int_key, Place, bind_aad, Envelope, Library, Keys, ok, err, err_envelope, key_at, encrypt,
  decrypt,
}
use control_center.Credentials.RoundTrip.{Promises, decrypt-encrypt, moved-IsRefused}

abbrev drop : ℕ → Bytes → Bytes
drop zero xs = xs
drop (suc n) [] = []
drop (suc n) (x ∷ xs) = drop n xs

take-append : (xs ys : Bytes) → take (length xs) (xs ++ ys) ≡ xs
take-append [] ys = refl
take-append (x ∷ xs) ys = ap (λ zs. x ∷ zs) (take-append xs ys)

drop-append : (xs ys : Bytes) → drop (length xs) (xs ++ ys) ≡ ys
drop-append [] ys = refl
drop-append (x ∷ xs) ys = drop-append xs ys

abbrev plain_marshal : Envelope → Bytes
plain_marshal e = e.format_version ∷ e.key_version ∷ length e.nonce ∷ (e.nonce ++ e.ciphertext)

abbrev plain_unmarshal : Bytes → Option Envelope
plain_unmarshal (f ∷ k ∷ n ∷ rest) =
    some (record {
      format_version = f;
      key_version = k;
      nonce = take n rest;
      ciphertext = drop n rest;
    })
plain_unmarshal _ = none

abbrev plain_seal : (key nonce plain aad : Bytes) → Bytes
plain_seal key nonce plain aad = length aad ∷ (aad ++ plain)

abbrev plain_open : (key nonce ciphertext aad : Bytes) → Option Bytes
plain_open key nonce [] aad = none
plain_open key nonce (n ∷ rest) aad =
    if n == length aad
    then (if bytes_eq (take n rest) aad then some (drop n rest) else none)
    else none

abbrev plain_library : Library
plain_library = record {
  seal = plain_seal;
  open_sealed = plain_open;
  marshal = plain_marshal;
  unmarshal = plain_unmarshal;
}

plain_library-Promises : Promises plain_library
plain_library-Promises = record {
  unmarshal-marshal =
      λ e. ground (arith, take-append e.nonce e.ciphertext, drop-append e.nonce e.ciphertext);
  opens = λ key nonce plain aad.
      ground (arith, take-append aad plain, drop-append aad plain, bytes_eq_iff aad aad);
  authentic =
      λ key nonce plain aad other ne. ground (arith, take-append aad plain, bytes_eq_iff aad other);
}

abbrev master : Bytes
master = codes "0123456789abcdef0123456789abcdef"

abbrev first_keys : Keys
first_keys = record { keys = (1, master) ∷ []; active = 1 }

-- After a rotation, the old key is still there.
abbrev rotated_keys : Keys
rotated_keys = record {
  keys = (2, codes "ffffffffffffffffffffffffffffffff") ∷ (1, master) ∷ [];
  active = 2;
}

abbrev api_key_row : Place
api_key_row = record {
  table = codes "core_credentials";
  id = codes "openai-main";
  kind = codes "api_key";
  provider = codes "openai";
  cred_version = 1;
}

abbrev other_row : Place
other_row = record api_key_row { id = codes "openai-mai"; kind = codes "napi_key" }

abbrev sealed : Bytes
sealed = plain_marshal (record {
  format_version = 1;
  key_version = 1;
  nonce = codes "nonce";
  ciphertext = plain_seal master (codes "nonce") (codes "secret") (bind_aad api_key_row 1);
})

sealed_by_encrypt :
    encrypt plain_library first_keys (some (codes "nonce")) (codes "secret") api_key_row ≡ ok sealed
unfolding encrypt key_at lookup
sealed_by_encrypt = refl

decrypt-encrypt_example :
    decrypt plain_library rotated_keys sealed api_key_row ≡ ok (codes "secret")
unfolding lookup
decrypt-encrypt_example =
    decrypt-encrypt plain_library plain_library-Promises first_keys rotated_keys
      (some (codes "nonce")) (codes "secret") sealed api_key_row sealed_by_encrypt refl

other_row-ne_same : other_row ≢ api_key_row
other_row-ne_same e = ground (arith, ap Place.kind e)

moved-IsRefused_example : decrypt plain_library rotated_keys sealed other_row ≡ err err_envelope
unfolding lookup
moved-IsRefused_example =
    moved-IsRefused plain_library plain_library-Promises first_keys rotated_keys
      (some (codes "nonce")) (codes "secret") sealed api_key_row sealed_by_encrypt refl other_row
      (omega arith)
      (record {
        table_short = omega arith;
        id_short = omega arith;
        kind_short = omega arith;
        provider_short = omega arith;
        version_word = omega arith;
      })
      (record {
        table_short = omega arith;
        id_short = omega arith;
        kind_short = omega arith;
        provider_short = omega arith;
        version_word = omega arith;
      })
      other_row-ne_same
