-- ===== src/Crypto/Tests.antt =====
-- Runs and instances of the theorems about the encryption.
use neo_nect_desktop.Base.{true, false, [], ◌∷◌, ◌≡◌, ◌≢◌, refl, some, length, arith, sym, ◌∙◌}
use neo_nect_desktop.Crypto.{
  Bytes, encrypt_aes_gcm, decrypt_aes_gcm, decrypt_aes_gcm_envelope, active_key, is_zero,
  generate_random_bytes,
}
use neo_nect_desktop.Crypto.Samples.{ones, plain_cipher, plain_cipher-Ready, plain_cipher-IsGcm}
use neo_nect_desktop.Crypto.Accepted.{decrypt_aes_gcm-accepted}
use neo_nect_desktop.Crypto.RoundTrip.{decrypt_aes_gcm-encrypt_aes_gcm}

encrypts : (encrypt_aes_gcm plain_cipher (ones 32) (7 ∷ 8 ∷ []) []).success ≡ true
unfolding encrypt_aes_gcm active_key is_zero generate_random_bytes
encrypts = refl

opens : decrypt_aes_gcm plain_cipher (ones 32) (7 ∷ ones 16) (ones 12) [] ≡ 7 ∷ []
unfolding decrypt_aes_gcm active_key is_zero
opens = refl

decrypt_aes_gcm-encrypt_aes_gcm_example :
    let sealed = encrypt_aes_gcm plain_cipher (ones 32) (7 ∷ 8 ∷ []) [] in
    (decrypt_aes_gcm_envelope plain_cipher (ones 32) sealed.envelope [] ≡ 7 ∷ 8 ∷ [])
    × (decrypt_aes_gcm plain_cipher (ones 32) sealed.cipher_with_tag sealed.nonce [] ≡ 7 ∷ 8 ∷ [])
decrypt_aes_gcm-encrypt_aes_gcm_example =
    decrypt_aes_gcm-encrypt_aes_gcm plain_cipher plain_cipher (ones 32) (7 ∷ 8 ∷ []) []
      plain_cipher-IsGcm plain_cipher-Ready encrypts

filled : decrypt_aes_gcm plain_cipher (ones 32) (7 ∷ ones 16) (ones 12) [] ≢ []
filled e = absurd (ground (arith, sym opens ∙ e))

decrypt_aes_gcm-accepted_example :
    (key : Bytes) × (rest : Bytes) × (active_key (ones 32) [] ≡ some key)
    × (is_zero key ≡ false)
    × (length (ones 12) ≡ 12)
    × (plain_cipher.decrypt_final key (ones 12) (7 ∷ []) (ones 16) ≡ some rest)
decrypt_aes_gcm-accepted_example =
    decrypt_aes_gcm-accepted plain_cipher (ones 32) (7 ∷ ones 16) (ones 12) [] filled
