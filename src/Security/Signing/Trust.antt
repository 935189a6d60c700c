-- ===== src/Security/Signing/Trust.antt =====
-- builder/signer.py and security/signing.py: which signatures a verifier accepts.
use mathlib.Core.Path.{subst}
use cpip.Common.{
  ℕ, ◌≡◌, refl, ap, ◌∙◌, ◌⊎◌, inl, inr, Bool-cases, Option-cases, String, true, Option, some, none,
  List, [], ◌∷◌, ◌==◌, arith,
}
use cpip.Common.Dict
use cpip.Common.Dict.{Dict}
use cpip.Security.Signing.{
  Bytes, Libraries, Outcome, from_private, sign_file, with_signature, SignatureVerifier, id_key,
  keys_to_try, any_verifies, verify_file,
}

abbrev pub In : ℕ → List ℕ → Type 0
In k [] = ⊥
In k (x ∷ xs) = (x ≡ k) ⊎ In k xs

-- A file whose bytes a signature fits, under one of the trusted keys: the key of the id, if that is
-- trusted.
pub record Trusted (lib : Libraries) (v : SignatureVerifier) (path signature_b64 : String)
    (key_id : Option String) : Type 0 where
  pub content : Bytes
  pub signature : Bytes
  pub key : ℕ
  pub read : lib.read_bytes path ≡ some content
  pub decoded : lib.b64decode signature_b64 ≡ some signature
  pub fits : lib.verify key signature content ≡ true
  pub among : In key (Dict.values v)
  pub chosen : (k : ℕ) → id_key v key_id ≡ some k → key ≡ k

any_verifies-In :
    (lib : Libraries) (content signature : Bytes) (keys : List ℕ)
    → any_verifies lib content signature keys ≡ true
    → (key : ℕ) × In key keys × (lib.verify key signature content ≡ true)
any_verifies-In lib content signature [] h = absurd (cc h)
any_verifies-In lib content signature (key ∷ keys) h =
    elim (Bool-cases (lib.verify key signature content)) [
      | inl e ↦ (key, inl refl, e)
      | inr e ↦
          let (found, place, fits) =
            any_verifies-In lib content signature keys (ground (arith, e, h)) in
          (found, inr place, fits)
    ]

get-In : (d : Dict ℕ) (id : String) (key : ℕ) → Dict.get d id ≡ some key → In key (Dict.values d)
unfolding Dict.get
get-In [] id key e = absurd (cc e)
get-In ((j, k) ∷ d) id key e = elim (Bool-cases (j == id)) [
  | inl f ↦ inl (ground (arith, e, f))
  | inr f ↦ inr (get-In d id key (ground (arith, e, f)))
]

id_key-In :
    (v : SignatureVerifier) (key_id : Option String) (key : ℕ)
    → id_key v key_id ≡ some key
    → In key (Dict.values v)
id_key-In v none key e = absurd (cc e)
id_key-In v (some id) key e = elim (Bool-cases (id == "")) [
  | inl f ↦ absurd (ground (arith, e, f))
  | inr f ↦ get-In v id key (ground (arith, e, f))
]

-- Of the keys that are tried, one that is found is trusted, and is that of the id if there is one.
keys_to_try-In :
    (v : SignatureVerifier) (key_id : Option String) (key : ℕ)
    → In key (keys_to_try v key_id)
    → In key (Dict.values v) × ((k : ℕ) → id_key v key_id ≡ some k → key ≡ k)
unfolding keys_to_try
keys_to_try-In v key_id key h = elim (Option-cases (id_key v key_id)) [
  | inl e ↦ (subst (In key) (ground (arith, e)) h, λ k f. absurd (ground (arith, e, f)))
  | inr (found, e) ↦
      let h' =
        subst (In key) (ap (λ (o : Option ℕ). elim o [ some k ↦ k ∷ [] | none ↦ Dict.values v ]) e)
          h in
      let same : found ≡ key = elim h' [ inl p ↦ p | inr q ↦ absurd q ] in
      (id_key-In v key_id key (e ∙ ap some same), λ k f. ground (arith, e, f, same))
]

verify_entries-Trusted :
    (lib : Libraries) (v : SignatureVerifier) (path signature_b64 : String) (key_id : Option String)
    → with_signature lib path signature_b64
        (λ content signature. any_verifies lib content signature (keys_to_try v key_id))
      ≡ Outcome.ok true
    → Trusted lib v path signature_b64 key_id
verify_entries-Trusted lib v path signature_b64 key_id h =
    elim (Option-cases (lib.read_bytes path)) [
      | inl r ↦ absurd (ground (arith, r, h))
      | inr (content, r) ↦ elim (Option-cases (lib.b64decode signature_b64)) [
        | inl d ↦ absurd (ground (arith, r, d, h))
        | inr (signature, d) ↦
            let (key, place, fits) =
              any_verifies-In lib content signature (keys_to_try v key_id)
                (ground (arith, r, d, h)) in
            let (among, chosen) = keys_to_try-In v key_id key place in
            record {
              content = content;
              signature = signature;
              key = key;
              read = r;
              decoded = d;
              fits = fits;
              among = among;
              chosen = chosen;
            }
      ]
    ]

-- A signature that is accepted fits the bytes of the file, under a key that is trusted; if the id that
-- was asked for is trusted, then under its key.
pub verify_file-Trusted :
    (lib : Libraries) (v : SignatureVerifier) (path signature_b64 : String) (key_id : Option String)
    → verify_file lib v path signature_b64 key_id ≡ Outcome.ok true
    → Trusted lib v path signature_b64 key_id
unfolding verify_file
verify_file-Trusted lib [] path signature_b64 key_id h = absurd (cc h)
verify_file-Trusted lib (entry ∷ entries) path signature_b64 key_id h =
    verify_entries-Trusted lib (entry ∷ entries) path signature_b64 key_id h

any_verifies-true :
    (lib : Libraries) (content signature : Bytes) (keys : List ℕ) (key : ℕ)
    → In key keys
    → lib.verify key signature content ≡ true
    → any_verifies lib content signature keys ≡ true
any_verifies-true lib content signature [] key p h = absurd p
any_verifies-true lib content signature (k ∷ keys) key (inl e) h = ground (arith, e, h)
any_verifies-true lib content signature (k ∷ keys) key (inr p) h =
    ground (arith, any_verifies-true lib content signature keys key p h)

-- The libraries give back the signature that was encoded, and accept what they signed.
pub record Honest (lib : Libraries) (key : ℕ) (content : Bytes) : Type 0 where
  pub base64 : lib.b64decode (lib.b64encode (lib.sign key content)) ≡ some (lib.sign key content)
  pub signs : lib.verify (lib.public_key key) (lib.sign key content) content ≡ true

tried-In :
    (v : SignatureVerifier) (id : String) (asked : Option String) (key : ℕ)
    → Dict.get v id ≡ some key
    → (id_key v asked ≡ none) ⊎ (id_key v asked ≡ some key)
    → In key (keys_to_try v asked)
unfolding keys_to_try
tried-In v id asked key e (inl f) = subst (In key) (ground (arith, f)) (get-In v id key e)
tried-In v id asked key e (inr f) =
    let same : (key ∷ []) ≡ keys_to_try v asked = ground (arith, f) in
    subst (In key) same (inl refl)

verify_entries-signed :
    (lib : Libraries) (v : SignatureVerifier) (key : ℕ) (content : Bytes) (path : String)
    (asked : Option String)
    → Honest lib key content
    → lib.read_bytes path ≡ some content
    → In (lib.public_key key) (keys_to_try v asked)
    → with_signature lib path
        (lib.b64encode (lib.sign key content))
        (λ c s. any_verifies lib c s (keys_to_try v asked))
      ≡ Outcome.ok true
verify_entries-signed lib v key content path asked honest r p = ground (
  arith,
  r,
  honest.base64,
  any_verifies-true lib content (lib.sign key content) (keys_to_try v asked) (lib.public_key key) p
      honest.signs,
)

-- What a signer signs is accepted where its public key is trusted under some id, whether that id is
-- asked for, none, or one that is not trusted; if the libraries accept what they signed.
pub verify_file-sign_file :
    (lib : Libraries) (v : SignatureVerifier) (key : ℕ) (content : Bytes)
    (path signature id : String) (asked : Option String)
    → Honest lib key content
    → lib.read_bytes path ≡ some content
    → sign_file lib (from_private lib key) path ≡ Outcome.ok signature
    → Dict.get v id ≡ some (lib.public_key key)
    → (id_key v asked ≡ none) ⊎ (id_key v asked ≡ some (lib.public_key key))
    → verify_file lib v path signature asked ≡ Outcome.ok true
unfolding verify_file sign_file Dict.get
verify_file-sign_file lib [] key content path signature id asked honest r s trusted a =
    absurd (cc trusted)
verify_file-sign_file lib (entry ∷ entries) key content path signature id asked honest r s trusted
      a =
    let same : lib.b64encode (lib.sign key content) ≡ signature = ground (arith, r, s) in
    subst
      (λ (t : String).
        with_signature lib path t
          (λ c sig. any_verifies lib c sig (keys_to_try (entry ∷ entries) asked))
        ≡ Outcome.ok true)
      same
      (verify_entries-signed lib (entry ∷ entries) key content path asked honest r
        (tried-In (entry ∷ entries) id asked (lib.public_key key) trusted a))
