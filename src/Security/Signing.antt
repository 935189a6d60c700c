-- ===== src/Security/Signing.antt =====
-- builder/signer.py: class PackageSigner, and security/signing.py: class SignatureVerifier. Keys are
-- numbers; Ed25519, base64, the reading of keys and of files are parameters. A file that cannot be read
-- and a text that is not base64 raise.
pub mod Trust
use cpip.Common.{
  ℕ, String, Bool, true, false, Option, some, none, List, [], ◌∷◌, ◌==◌, if◌then◌else◌,
}
use cpip.Common.Dict
use cpip.Common.Dict.{Dict}

abbrev pub Bytes : Type 0
Bytes = List ℕ

-- What a text of PEM holds.
pub data Pem : Type 0 where
  ed25519 : ℕ → Pem
  other_key : Pem
  unreadable : Pem

pub record Libraries : Type 0 where
  pub public_key : ℕ → ℕ
  pub sign : ℕ → Bytes → Bytes
  pub verify : ℕ → Bytes → Bytes → Bool
  pub load_pem_public_key : String → Pem
  pub load_pem_private_key : Bytes → Option ℕ
  pub b64encode : Bytes → String
  pub b64decode : String → Option Bytes
  pub read_bytes : String → Option Bytes

pub data Failure : Type 0 where
  value_error : String → Failure
  os_error : Failure
  binascii_error : Failure

pub data Outcome {ℓ} (A : Type ℓ) : Type ℓ where
  ok : A → Outcome A
  raised : Failure → Outcome A

pub record PackageSigner : Type 0 where
  pub private : Option ℕ
  pub public : Option ℕ

-- `generate` with a new private key.
abbrev pub from_private : Libraries → ℕ → PackageSigner
from_private lib key = record { private = some key; public = some (lib.public_key key) }

unfoldable pub from_key_file : Libraries → String → Outcome PackageSigner
from_key_file lib path = elim (lib.read_bytes path) [
  | none ↦ Outcome.raised Failure.os_error
  | some content ↦ elim (lib.load_pem_private_key content) [
    | none ↦ Outcome.raised (Failure.value_error "Could not deserialize key data")
    | some key ↦ Outcome.ok (from_private lib key)
  ]
]

unfoldable pub sign_file : Libraries → PackageSigner → String → Outcome String
sign_file lib s path = elim s.private [
  | none ↦ Outcome.raised (Failure.value_error "No private key available")
  | some key ↦ elim (lib.read_bytes path) [
    | none ↦ Outcome.raised Failure.os_error
    | some content ↦ Outcome.ok (lib.b64encode (lib.sign key content))
  ]
]

-- The content of a file and the bytes of a signature, and what is done with them.
abbrev pub with_signature : Libraries → String → String → (Bytes → Bytes → Bool) → Outcome Bool
with_signature lib path signature_b64 test = elim (lib.read_bytes path) [
  | none ↦ Outcome.raised Failure.os_error
  | some content ↦ elim (lib.b64decode signature_b64) [
    | none ↦ Outcome.raised Failure.binascii_error
    | some signature ↦ Outcome.ok (test content signature)
  ]
]

unfoldable pub signer_verify_file : Libraries → PackageSigner → String → String → Outcome Bool
signer_verify_file lib s path signature_b64 = elim s.public [
  | none ↦ Outcome.raised (Failure.value_error "No public key available")
  | some key ↦
      with_signature lib path signature_b64 (λ content signature. lib.verify key signature content)
]

-- The trusted keys of a SignatureVerifier.
abbrev pub SignatureVerifier : Type 0
SignatureVerifier = Dict ℕ

unfoldable pub load_public_key :
    Libraries → String → String → SignatureVerifier → Outcome SignatureVerifier
load_public_key lib key_id pem_data v = elim (lib.load_pem_public_key pem_data) [
  | Pem.ed25519 key ↦ Outcome.ok (Dict.put v key_id key)
  | Pem.other_key ↦ Outcome.raised (Failure.value_error "Must be an Ed25519 public key")
  | Pem.unreadable ↦ Outcome.raised (Failure.value_error "Could not deserialize key data")
]

-- The keys that are tried: that of the id, or all if there is none.
abbrev pub id_key : SignatureVerifier → Option String → Option ℕ
id_key v none = none
id_key v (some key_id) = if key_id == "" then none else Dict.get v key_id

unfoldable pub keys_to_try : SignatureVerifier → Option String → List ℕ
keys_to_try v key_id = elim (id_key v key_id) [ some key ↦ key ∷ [] | none ↦ Dict.values v ]

abbrev pub any_verifies : Libraries → Bytes → Bytes → List ℕ → Bool
any_verifies lib content signature [] = false
any_verifies lib content signature (key ∷ keys) =
    let rest = any_verifies lib content signature keys in
    if lib.verify key signature content then true else rest

unfoldable pub verify_file :
    Libraries → SignatureVerifier → String → String → Option String → Outcome Bool
verify_file lib [] path signature_b64 key_id = Outcome.ok false
verify_file lib (entry ∷ entries) path signature_b64 key_id =
    with_signature lib path signature_b64 (λ content signature.
      any_verifies lib content signature (keys_to_try (entry ∷ entries) key_id))
