-- ===== src/Credentials/Binding.antt =====
-- bindAAD and appendLP of internal/core/credentials/crypto.go.
use control_center.Common.{
  ℕ, ◌/◌, ◌%◌, ◌<◌, ◌≡◌, refl, sym, ◌∙◌, [], ◌∷◌, ◌++◌, arith, Bytes, length, append_assoc,
}
use control_center.Common.Word.{mod64}
use control_center.Credentials.Envelope.{put_uint32, put_uint64, append_lp, Place, bind_aad}

abbrev pub mod32 : ℕ
mod32 = 4294967296

append_split :
    (xs ys us vs : Bytes) → length xs ≡ length ys → xs ++ us ≡ ys ++ vs → (xs ≡ ys) × (us ≡ vs)
append_split [] [] us vs e h = (refl, h)
append_split [] (y ∷ ys) us vs e h = absurd (omega arith)
append_split (x ∷ xs) [] us vs e h = absurd (omega arith)
append_split (x ∷ xs) (y ∷ ys) us vs e h = ground (arith, append_split xs ys us vs)

four_bytes :
    (m n : ℕ)
    → m / 16777216 % 256 ≡ n / 16777216 % 256
    → m / 65536 % 256 ≡ n / 65536 % 256
    → m / 256 % 256 ≡ n / 256 % 256
    → m % 256 ≡ n % 256
    → m % mod32 ≡ n % mod32
four_bytes m n a b c d = omega arith

put_uint32-split :
    (m n : ℕ) (us vs : Bytes)
    → put_uint32 m ++ us ≡ put_uint32 n ++ vs
    → (m % mod32 ≡ n % mod32) × (us ≡ vs)
put_uint32-split m n us vs h = ground (arith, four_bytes m n)

-- A string behind its length, and what follows it.
abbrev framed : Bytes → Bytes → Bytes
framed s rest = put_uint32 (length s) ++ s ++ rest

framed-split :
    (s t us vs : Bytes)
    → length s < mod32
    → length t < mod32
    → framed s us ≡ framed t vs
    → (s ≡ t) × (us ≡ vs)
framed-split s t us vs hs ht h =
    let (n, e) = put_uint32-split (length s) (length t) (s ++ us) (t ++ vs) h in
    append_split s t us vs (omega arith) e

append_lp-framed : (b s rest : Bytes) → append_lp b s ++ rest ≡ b ++ framed s rest
unfolding append_lp
append_lp-framed b s rest = simp append_assoc refl

bind_aad-framed :
    (p : Place) (v : ℕ)
    → bind_aad p v
      ≡ framed p.table (
          framed p.id
            (framed p.kind (framed p.provider (put_uint64 p.cred_version ++ put_uint64 v))))
unfolding bind_aad
bind_aad-framed p v = simp append_lp-framed refl

put_uint64-split :
    (m n : ℕ) (us vs : Bytes)
    → m < mod64
    → n < mod64
    → put_uint64 m ++ us ≡ put_uint64 n ++ vs
    → (m ≡ n) × (us ≡ vs)
put_uint64-split m n us vs hm hn h =
    let (hi, e) =
      put_uint32-split (m / mod32) (n / mod32) (put_uint32 m ++ us) (put_uint32 n ++ vs) h in
    let (lo, e') = put_uint32-split m n us vs e in (omega arith, e')

-- The strings and the version of a place are as long as bindAAD can write.
pub record IsShort (p : Place) : Type 0 where
  pub table_short : length p.table < mod32
  pub id_short : length p.id < mod32
  pub kind_short : length p.kind < mod32
  pub provider_short : length p.provider < mod32
  pub version_word : p.cred_version < mod64

-- The binding is canonical: where every string is shorter than 4 GiB and every version is an int64
-- word, two places and key versions with the same bytes are the same.
pub bind_aad-inj :
    (p q : Place) (v u : ℕ)
    → IsShort p
    → IsShort q
    → v < mod64
    → u < mod64
    → bind_aad p v ≡ bind_aad q u
    → (p ≡ q) × (v ≡ u)
bind_aad-inj p q v u sp sq hv hu h =
    let h1 = sym (bind_aad-framed p v) ∙ h ∙ bind_aad-framed q u in
    let (t, h2) = framed-split p.table q.table _ _ sp.table_short sq.table_short h1 in
    let (i, h3) = framed-split p.id q.id _ _ sp.id_short sq.id_short h2 in
    let (k, h4) = framed-split p.kind q.kind _ _ sp.kind_short sq.kind_short h3 in
    let (r, h5) = framed-split p.provider q.provider _ _ sp.provider_short sq.provider_short h4 in
    let (c, h6) =
      put_uint64-split p.cred_version q.cred_version (put_uint64 v) (put_uint64 u) sp.version_word
        sq.version_word h5 in
    let (e, _) = put_uint64-split v u [] [] hv hu h6 in (ground arith, e)
