-- ===== src/Security/Tests.antt =====
-- Runs of security/ and builder/signer.py: a signed file, an encrypted text, the log and the options.
use cpip.Common.{
  ℕ, ◌+◌, ◌≡◌, refl, inl, Bool, true, false, some, none, [], ◌∷◌, ◌==◌, eqb, if◌then◌else◌,
}
use cpip.Common.Dict
use cpip.Shared.Json.{Json, Fields}
use cpip.Security.Signing as Signing
use cpip.Security.Signing.{
  Bytes, Pem, PackageSigner, SignatureVerifier, from_private, from_key_file, sign_file,
  signer_verify_file, load_public_key, keys_to_try, verify_file,
}
use cpip.Security.Signing.Trust as Trust
use cpip.Security.Signing.Trust.{Trusted, verify_file-Trusted, verify_file-sign_file}
use cpip.Security.Crypto as Crypto
use cpip.Security.Crypto.{new_manager, encrypt, decrypt, decrypt-encrypt}
use cpip.Security.Audit.{
  log_event, log_auth_failure, log_auth_success, log_execution, log_package_install,
}
use cpip.Security.Policy.{to_docker_args, default_config}

program : Unit {0}
unfolding from_key_file sign_file signer_verify_file load_public_key keys_to_try verify_file
    new_manager encrypt decrypt log_event log_auth_failure log_auth_success log_execution
    log_package_install to_docker_args Dict.get Dict.put
program = tt

-- The public key is the private one and 100; a signature begins with it.
abbrev begins : ℕ → Bytes → Bool
begins key [] = false
begins key (b ∷ bs) = eqb b key

abbrev lib : Signing.Libraries
lib = record {
  public_key = λ key. key + 100;
  sign = λ key content. (key + 100) ∷ content;
  verify = λ key signature content. begins key signature;
  load_pem_public_key = λ s. if s == "pem" then Pem.ed25519 107 else Pem.unreadable;
  load_pem_private_key = λ bs. some 7;
  b64encode = λ bs. if begins 107 bs then "s7" else "s8";
  b64decode = λ s.
      if s == "s7" then some (107 ∷ 1 ∷ []) else if s == "s8" then some (108 ∷ 1 ∷ []) else none;
  read_bytes = λ path. if path == "a.whl" then some (1 ∷ []) else none;
}

abbrev trusted : SignatureVerifier
trusted = ("main", 107) ∷ ("other", 108) ∷ []

test_verify_file :
    (verify_file lib trusted "a.whl" "s7" (some "main") ≡ Signing.Outcome.ok true)
    × (verify_file lib trusted "a.whl" "s7" (some "other") ≡ Signing.Outcome.ok false)
    × (verify_file lib trusted "a.whl" "s7" none ≡ Signing.Outcome.ok true)
    × (verify_file lib [] "b.whl" "?" none ≡ Signing.Outcome.ok false)
unfolding program
test_verify_file = (refl, refl, refl, refl)

-- A key id that is not trusted: all other keys are tried.
test_unknown_id : verify_file lib trusted "a.whl" "s8" (some "revoked") ≡ Signing.Outcome.ok true
unfolding program
test_unknown_id = refl

test_signer :
    (from_key_file lib "a.whl" ≡ Signing.Outcome.ok (from_private lib 7))
    × (signer_verify_file lib (from_private lib 7) "a.whl" "s7" ≡ Signing.Outcome.ok true)
    × (load_public_key lib "main" "pem" [] ≡ Signing.Outcome.ok (("main", 107) ∷ []))
unfolding program
test_signer = (refl, refl, refl)

verify_file-Trusted_example : Trusted lib trusted "a.whl" "s7" (some "main")
unfolding program
verify_file-Trusted_example = verify_file-Trusted lib trusted "a.whl" "s7" (some "main") refl

honest : Trust.Honest lib 7 (1 ∷ [])
honest = record { base64 = refl; signs = refl }

test_signed : verify_file lib trusted "a.whl" "s7" (some "revoked") ≡ Signing.Outcome.ok true
unfolding program
test_signed =
    verify_file-sign_file lib trusted 7 (1 ∷ []) "a.whl" "s7" "main" (some "revoked") honest refl
      refl refl (inl refl)

abbrev aes : Crypto.Libraries
aes = record {
  encrypt = λ key nonce content. 99 ∷ content;
  decrypt = λ key nonce sealed. elim sealed [ [] ↦ none | b ∷ bs ↦ some bs ];
  b64encode = λ bs. "sealed";
  b64decode = λ s.
      if s == "sealed"
      then some (0 ∷ 1 ∷ 2 ∷ 3 ∷ 4 ∷ 5 ∷ 6 ∷ 7 ∷ 8 ∷ 9 ∷ 10 ∷ 11 ∷ 99 ∷ 5 ∷ [])
      else none;
}

abbrev nonce : Bytes
nonce = 0 ∷ 1 ∷ 2 ∷ 3 ∷ 4 ∷ 5 ∷ 6 ∷ 7 ∷ 8 ∷ 9 ∷ 10 ∷ 11 ∷ []

aes-Honest : Crypto.Honest aes [] nonce (5 ∷ [])
aes-Honest = record { opens = refl; base64 = refl }

test_decrypt : decrypt aes [] (encrypt aes [] nonce (5 ∷ [])) ≡ Crypto.Outcome.ok (5 ∷ [])
test_decrypt = decrypt-encrypt aes [] nonce (5 ∷ []) aes-Honest refl

test_new_manager :
    (new_manager (some (1 ∷ [])) nonce
      ≡ Crypto.Outcome.raised (Crypto.Failure.value_error "Master key must be exactly 32 bytes"))
    × (new_manager (some []) nonce ≡ Crypto.Outcome.ok nonce)
unfolding program
test_new_manager = (refl, refl)

test_log :
    log_auth_failure true 7 "ada" "phone" "expired" ""
      (log_auth_success false 6 "ada" "phone" "" [])
    ≡ record {
      timestamp = 7;
      type = "auth_failure";
      user_id = "ada";
      device_id = "phone";
      details = Json.object (
          Fields.entry "reason"
            (Json.string "expired")
            (Fields.entry "ip_address" (Json.string "") Fields.no_fields));
    }
      ∷ []
unfolding program
test_log = refl

test_to_docker_args :
    to_docker_args "/home/.cpip" false default_config
    ≡ "--cap-drop" ∷ "ALL" ∷ "--read-only" ∷ "--security-opt=no-new-privileges:true"
      ∷ "--security-opt=seccomp=unconfined" ∷ []
unfolding program
test_to_docker_args = refl
