-- ===== src/Crypto.antt =====
-- The symmetric encryption of src/crypto/cryptoservice.cpp and the key buffer of
-- src/common/openssl_raii.h. OpenSSL and Qt's hash are parameters: `OpenSsl` holds what each call of
-- one run gives back.
pub mod RoundTrip
pub mod Accepted
pub mod Keys
pub mod Samples
mod Tests
use neo_nect_desktop.Base.{
  ℕ, ◌+◌, ◌-◌, min, Bool, true, false, ◌&&◌, ◌||◌, not, List, [], ◌∷◌, ◌++◌, Option, none, some,
  if◌then◌else◌, length, take, drop, ltb, ◌==◌,
}
use neo_nect_desktop.Base.Text.{String}

abbrev pub Bytes : Type 0
Bytes = List ℕ

abbrev pub aes_256_key_size : ℕ
aes_256_key_size = 32

abbrev pub aes_gcm_iv_size : ℕ
aes_gcm_iv_size = 12

abbrev pub aes_gcm_tag_size : ℕ
aes_gcm_tag_size = 16

abbrev pbkdf2_iterations : ℕ
pbkdf2_iterations = 10000

pub record OpenSsl : Type 0 where
  -- QCryptographicHash::hash with Sha256
  pub sha256 : Bytes → Bytes
  -- the bytes of Constants::STATIC_SALT_VAULT
  pub static_salt : Bytes
  -- PKCS5_PBKDF2_HMAC: password, salt, iterations and length
  pub pbkdf2 : Bytes → Bytes → ℕ → ℕ → Option Bytes
  -- RAND_bytes
  pub rand_bytes : ℕ → Option Bytes
  -- EVP_CIPHER_CTX_new, EVP_EncryptInit_ex with the cipher, and EVP_CTRL_GCM_SET_IVLEN
  pub ctx_new : Bool
  pub encrypt_init : Bool
  pub encrypt_set_iv_len : Bool
  -- EVP_EncryptInit_ex with key and nonce, EVP_EncryptUpdate, EVP_EncryptFinal_ex and
  -- EVP_CTRL_GCM_GET_TAG, for a key, a nonce and a plaintext: the bytes written
  pub encrypt_set_key : Bytes → Bytes → Bool
  pub encrypt_update : Bytes → Bytes → Bytes → Option Bytes
  pub encrypt_final : Bytes → Bytes → Bytes → Option Bytes
  pub get_tag : Bytes → Bytes → Bytes → Option Bytes
  -- the same for decryption, for a key, a nonce and a ciphertext, with the tag last
  pub decrypt_init : Bool
  pub decrypt_set_iv_len : Bool
  pub decrypt_set_key : Bytes → Bytes → Bool
  pub decrypt_update : Bytes → Bytes → Bytes → Option Bytes
  pub set_tag : Bytes → Bool
  pub decrypt_final : Bytes → Bytes → Bytes → Bytes → Option Bytes

-- SecureBuffer(size), and resize(size): new bytes are 0.
unfoldable pub zeros : ℕ → Bytes
zeros ℕ.zero = []
zeros (ℕ.suc n) = 0 ∷ zeros n

unfoldable pub resize : ℕ → Bytes → Bytes
unfolding zeros
resize n xs = take n xs ++ zeros (n - length xs)

-- memcpy(to, from, n)
unfoldable pub copy : ℕ → Bytes → Bytes → Bytes
copy n from to = take n from ++ drop n to

-- The keyIsZero loop.
unfoldable pub is_zero : Bytes → Bool
is_zero [] = true
is_zero (b ∷ bs) = b == 0 && is_zero bs

abbrev pub is_empty_bytes : Bytes → Bool
is_empty_bytes [] = true
is_empty_bytes (b ∷ bs) = false

pub record EncryptedPayload : Type 0 where
  pub success : Bool
  pub cipher_with_tag : Bytes
  pub nonce : Bytes
  pub envelope : Bytes
  pub error_message : String

abbrev pub failed : String → EncryptedPayload
failed message = record {
  success = false;
  cipher_with_tag = [];
  nonce = [];
  envelope = [];
  error_message = message;
}

-- The service holds its master key.
unfoldable pub initial_key : OpenSsl → Bytes
unfolding copy zeros
initial_key o = copy aes_256_key_size (o.sha256 o.static_salt) (zeros aes_256_key_size)

unfoldable pub set_master_key : Bytes → Bytes → Bytes
unfolding copy resize
set_master_key key master =
    copy (min (length key) aes_256_key_size) key (resize aes_256_key_size master)

-- Whether it succeeded, and the master key.
unfoldable pub derive_key_from_passphrase : OpenSsl → Bytes → Bytes → Bytes → Bool × Bytes
derive_key_from_passphrase o passphrase salt master =
    let salt_bytes = if is_empty_bytes salt then o.static_salt else salt in
    elim (o.pbkdf2 passphrase salt_bytes pbkdf2_iterations aes_256_key_size) [
      | none ↦ (false, master)
      | some derived ↦ (true, derived)
    ]

unfoldable pub generate_random_bytes : OpenSsl → ℕ → Bytes
generate_random_bytes o count = elim (o.rand_bytes count) [ none ↦ [] | some bytes ↦ bytes ]

-- The key to work with: the override, if there is one, of the right length.
unfoldable pub active_key : Bytes → Bytes → Option Bytes
unfolding copy resize
active_key master override =
    if not (is_empty_bytes override)
    then if not (length override == aes_256_key_size)
      then none
      else some (copy aes_256_key_size override (zeros aes_256_key_size))
    else some (copy (length master) master (resize (length master) (zeros aes_256_key_size)))

-- From the end of the encryption: the tag appended, and the envelope
-- [version = 1][nonce length][nonce][ciphertext and tag].
abbrev pub seal : Bytes → Bytes → Bytes → EncryptedPayload
seal nonce ciphertext tag =
    let cipher_with_tag = ciphertext ++ tag in
    record {
      success = true;
      cipher_with_tag = cipher_with_tag;
      nonce = nonce;
      envelope = 1 ∷ length nonce ∷ (nonce ++ cipher_with_tag);
      error_message = "";
    }

-- EVP_EncryptUpdate and what follows it.
abbrev encrypt_data : OpenSsl → Bytes → Bytes → Bytes → EncryptedPayload
encrypt_data o key nonce plain = elim (o.encrypt_update key nonce plain) [
  | none ↦ failed "Encryption update failed"
  | some written ↦ elim (o.encrypt_final key nonce plain) [
    | none ↦ failed "Encryption finalization failed"
    | some rest ↦ elim (o.get_tag key nonce plain) [
      | none ↦ failed "Failed to extract GCM authentication tag"
      | some tag ↦ seal nonce (written ++ rest) tag
    ]
  ]
]

-- The cipher context.
abbrev encrypt_with : OpenSsl → Bytes → Bytes → Bytes → EncryptedPayload
encrypt_with o key nonce plain =
    if not o.ctx_new
    then failed "Failed to allocate OpenSSL cipher context"
    else if not o.encrypt_init
    then failed "Failed to initialize AES-256-GCM cipher"
    else if not o.encrypt_set_iv_len
    then failed "Failed to set GCM IV length"
    else if not (o.encrypt_set_key key nonce)
    then failed "Failed to set key and IV in cipher context"
    else encrypt_data o key nonce plain

unfoldable pub encrypt_aes_gcm : OpenSsl → Bytes → Bytes → Bytes → EncryptedPayload
encrypt_aes_gcm o master plain override =
    if is_empty_bytes plain
    then failed "Plaintext cannot be empty"
    else elim (active_key master override) [
      | none ↦ failed "Invalid key length: AES-256 requires exactly 32 bytes"
      | some key ↦
          if is_zero key
          then failed "Encryption key is not initialized (Missing Key Exchange)"
          else let nonce = generate_random_bytes o aes_gcm_iv_size in
            if not (length nonce == aes_gcm_iv_size)
            then failed "Failed to generate cryptographically secure nonce"
            else encrypt_with o key nonce plain
    ]

-- EVP_DecryptUpdate and what follows it.
abbrev decrypt_data : OpenSsl → Bytes → Bytes → Bytes → Bytes → Bytes
decrypt_data o key nonce cipher tag = elim (o.decrypt_update key nonce cipher) [
  | none ↦ []
  | some written ↦
      if not (o.set_tag tag)
      then []
      else elim (o.decrypt_final key nonce cipher tag) [ none ↦ [] | some rest ↦ written ++ rest ]
]

abbrev decrypt_with : OpenSsl → Bytes → Bytes → Bytes → Bytes → Bytes
decrypt_with o key nonce cipher tag =
    if not o.ctx_new
      || not o.decrypt_init
      || not o.decrypt_set_iv_len
      || not (o.decrypt_set_key key nonce)
    then []
    else decrypt_data o key nonce cipher tag

unfoldable pub decrypt_aes_gcm : OpenSsl → Bytes → Bytes → Bytes → Bytes → Bytes
decrypt_aes_gcm o master cipher_with_tag nonce override =
    if ltb (length cipher_with_tag) aes_gcm_tag_size || not (length nonce == aes_gcm_iv_size)
    then []
    else elim (active_key master override) [
      | none ↦ []
      | some key ↦
          let n = length cipher_with_tag - aes_gcm_tag_size in
          if is_zero key
          then []
          else decrypt_with o key nonce (take n cipher_with_tag) (drop n cipher_with_tag)
    ]

unfoldable pub decrypt_aes_gcm_envelope : OpenSsl → Bytes → Bytes → Bytes → Bytes
decrypt_aes_gcm_envelope o master [] override = []
decrypt_aes_gcm_envelope o master (version ∷ []) override = []
decrypt_aes_gcm_envelope o master (version ∷ nonce_len ∷ rest) override =
    if not (version == 1) || not (nonce_len == aes_gcm_iv_size)
    then []
    else if ltb (2 + length rest) (2 + nonce_len + aes_gcm_tag_size)
    then []
    else decrypt_aes_gcm o master (drop nonce_len rest) (take nonce_len rest) override
