-- ===== src/Bls.antt =====
-- bls/bls.go: reading keys and signatures from bytes, signing, and the verification of a signature
-- that comes as bytes.
pub mod Signed
use proof_relay.Base.{
  ℕ, zero, suc, ◌-◌, ◌≡◌, List, [], ◌∷◌, ◌++◌, take, Bool, true, not, Option, none, some, length,
  ◌==◌, if◌then◌else◌,
}
use proof_relay.Text.{Text, codes}
use proof_relay.Beacon.{Reply, answer, failure}

abbrev pub zeros : ℕ → Text
zeros zero = []
zeros (suc n) = 0 ∷ zeros n

-- `copy` into an array of `n` bytes that is zero.
abbrev pub copy_into : ℕ → Text → Text
copy_into n t = take n t ++ zeros (n - length t)

-- The library blst: `Uncompress`, `KeyValidate`, `Deserialize`, `SigValidate`, `Verify`, `From`,
-- `Sign` and `Compress`. `none` is a nil pointer. The last text of `Verify` and `Sign` is the domain
-- separation tag.
pub record Blst : Type 1 where
  pub P1Affine : Type 0
  pub P2Affine : Type 0
  pub SecretKey : Type 0
  pub uncompress_p1 : Text → Option P1Affine
  pub compress_p1 : P1Affine → Text
  pub key_validate : P1Affine → Bool
  pub uncompress_p2 : Text → Option P2Affine
  pub compress_p2 : P2Affine → Text
  pub sig_validate : P2Affine → Bool
  pub deserialize : Text → Option SecretKey
  pub from : SecretKey → P1Affine
  pub sign_with : SecretKey → Text → Text → P2Affine
  pub verify_with : P2Affine → P1Affine → Text → Text → Bool

abbrev pub dst : Text
dst = codes "BLS_SIG_BLS12381G2_XMD:SHA-256_SSWU_RO_POP_"

module _ (B : Blst) where
  open B use {P1Affine, P2Affine, SecretKey}

  abbrev pub valid_key : Option P1Affine → Reply P1Affine
  valid_key none = failure (codes "could not uncompress public key from bytes")
  valid_key (some pk) =
      if not (B.key_validate pk) then failure (codes "invalid pubkey") else answer pk

  unfoldable pub public_key_from_bytes : Text → Reply P1Affine
  public_key_from_bytes pk_bytes =
      if not (length pk_bytes == 48)
      then failure (codes "invalid pubkey length")
      else valid_key (B.uncompress_p1 pk_bytes)

  abbrev pub public_key_from_secret_key : SecretKey → P1Affine
  public_key_from_secret_key sk = B.from sk

  abbrev pub relay_bls_pub_key : P1Affine → Text
  relay_bls_pub_key pk = copy_into 48 (B.compress_p1 pk)

  abbrev read_secret : Option SecretKey → Reply SecretKey
  read_secret none = failure (codes "could not deserialize secret key from bytes")
  read_secret (some sk) = answer sk

  unfoldable pub secret_key_from_bytes : Text → Reply SecretKey
  secret_key_from_bytes sk_bytes =
      if not (length sk_bytes == 32)
      then failure (codes "invalid secret key length")
      else read_secret (B.deserialize sk_bytes)

  abbrev pub sign : SecretKey → Text → P2Affine
  sign sk msg = B.sign_with sk msg dst

  abbrev pub valid_signature : Option P2Affine → Reply P2Affine
  valid_signature none = failure (codes "could not uncompress signature from bytes")
  valid_signature (some sig) =
      if not (B.sig_validate sig) then failure (codes "invalid signature") else answer sig

  unfoldable pub signature_from_bytes : Text → Reply P2Affine
  signature_from_bytes sig_bytes =
      if not (length sig_bytes == 96)
      then failure (codes "invalid signature length")
      else valid_signature (B.uncompress_p2 sig_bytes)

  abbrev pub verify_signature : P2Affine → P1Affine → Text → Bool
  verify_signature sig pk msg = B.verify_with sig pk msg dst

  abbrev pub with_key : Text → P2Affine → Reply P1Affine → Reply Bool
  with_key msg sig (failure e) = failure e
  with_key msg sig (answer pk) = answer (verify_signature sig pk msg)

  abbrev pub with_signature : Text → Text → Reply P2Affine → Reply Bool
  with_signature msg pk_bytes (failure e) = failure e
  with_signature msg pk_bytes (answer sig) = with_key msg sig (public_key_from_bytes pk_bytes)

  unfoldable pub verify_signature_bytes : Text → Text → Text → Reply Bool
  unfolding public_key_from_bytes signature_from_bytes
  verify_signature_bytes msg sig_bytes pk_bytes =
      with_signature msg pk_bytes (signature_from_bytes sig_bytes)

-- What blst documents: compressed points have 48 and 96 bytes and are read back, the key of a secret
-- and its signatures are valid, and such a signature verifies.
pub record BlstLaws (B : Blst) : Type 0 where
  pub length_p1 : (pk : B.P1Affine) → length (B.compress_p1 pk) ≡ 48
  pub length_p2 : (sig : B.P2Affine) → length (B.compress_p2 sig) ≡ 96
  pub read_p1 : (pk : B.P1Affine) → B.uncompress_p1 (B.compress_p1 pk) ≡ some pk
  pub read_p2 : (sig : B.P2Affine) → B.uncompress_p2 (B.compress_p2 sig) ≡ some sig
  pub from_valid : (sk : B.SecretKey) → B.key_validate (B.from sk) ≡ true
  pub sign_valid :
      (sk : B.SecretKey) (msg tag : Text) → B.sig_validate (B.sign_with sk msg tag) ≡ true
  pub verify_sign :
      (sk : B.SecretKey) (msg tag : Text)
      → B.verify_with (B.sign_with sk msg tag) (B.from sk) msg tag ≡ true
