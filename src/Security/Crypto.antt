-- ===== src/Security/Crypto.antt =====
-- security/crypto.py: class CryptoManager. AES-GCM and base64 are parameters, and so are the random
-- bytes.
use cpip.Common.{
  ◌≡◌, String, Option, some, none, [], ◌∷◌, ◌++◌, length, take, drop, take-append, drop-append,
  length-append, ltb, eqb, if◌then◌else◌, arith,
}
use cpip.Security.Signing.{Bytes}

-- `decrypt` gives none where it raises InvalidTag.
pub record Libraries : Type 0 where
  pub encrypt : Bytes → Bytes → Bytes → Bytes
  pub decrypt : Bytes → Bytes → Bytes → Option Bytes
  pub b64encode : Bytes → String
  pub b64decode : String → Option Bytes

pub data Failure : Type 0 where
  value_error : String → Failure
  binascii_error : Failure
  invalid_tag : Failure

pub data Outcome : Type 0 where
  ok : Bytes → Outcome
  raised : Failure → Outcome

-- The key of a new manager; an empty key counts as none.
unfoldable pub new_manager : Option Bytes → Bytes → Outcome
new_manager none random = Outcome.ok random
new_manager (some []) random = Outcome.ok random
new_manager (some (b ∷ bs)) random =
    if eqb (length (b ∷ bs)) 32
    then Outcome.ok (b ∷ bs)
    else Outcome.raised (Failure.value_error "Master key must be exactly 32 bytes")

unfoldable pub encrypt : Libraries → Bytes → Bytes → Bytes → String
encrypt lib key nonce content = lib.b64encode (nonce ++ lib.encrypt key nonce content)

abbrev pub decrypt_raw : Libraries → Bytes → Bytes → Outcome
decrypt_raw lib key raw =
    if ltb (length raw) 12
    then Outcome.raised (Failure.value_error "Invalid encrypted data length")
    else elim (lib.decrypt key (take 12 raw) (drop 12 raw)) [
      | some content ↦ Outcome.ok content
      | none ↦ Outcome.raised Failure.invalid_tag
    ]

unfoldable pub decrypt : Libraries → Bytes → String → Outcome
decrypt lib key encrypted_b64 = elim (lib.b64decode encrypted_b64) [
  | none ↦ Outcome.raised Failure.binascii_error
  | some raw ↦ decrypt_raw lib key raw
]

-- What AES-GCM and base64 promise of one encryption.
pub record Honest (lib : Libraries) (key nonce content : Bytes) : Type 0 where
  pub opens : lib.decrypt key nonce (lib.encrypt key nonce content) ≡ some content
  pub base64 :
      lib.b64decode (lib.b64encode (nonce ++ lib.encrypt key nonce content))
      ≡ some (nonce ++ lib.encrypt key nonce content)

-- What was encrypted is decrypted again with the same key, if the nonce has twelve bytes and the
-- libraries open what they sealed.
pub decrypt-encrypt :
    (lib : Libraries) (key nonce content : Bytes)
    → Honest lib key nonce content
    → length nonce ≡ 12
    → decrypt lib key (encrypt lib key nonce content) ≡ Outcome.ok content
unfolding decrypt encrypt
decrypt-encrypt lib key nonce content h n = ground (
  arith,
  h.base64,
  h.opens,
  n,
  take-append 12 nonce (lib.encrypt key nonce content) n,
  drop-append 12 nonce (lib.encrypt key nonce content) n,
  length-append nonce (lib.encrypt key nonce content),
)
