-- ===== src/Crypto/Accepted.antt =====
-- What src/crypto/cryptoservice.cpp lets out of a decryption.
use neo_nect_desktop.Base.{
  ◌-◌, true, false, ◌||◌, not, [], ◌∷◌, ◌≡◌, ◌≢◌, refl, ◌∙◌, arith, Bool-cases, Option-cases, inl,
  inr, some, length, take, drop, ltb, ◌==◌,
}
use neo_nect_desktop.Crypto.{
  Bytes, OpenSsl, decrypt_data, decrypt_with, decrypt_aes_gcm, active_key, is_zero, encrypt_aes_gcm,
  is_empty_bytes,
}

decrypt_with-accepted :
    (o : OpenSsl) (key nonce cipher tag : Bytes)
    → decrypt_with o key nonce cipher tag ≢ []
    → (rest : Bytes) × (o.decrypt_final key nonce cipher tag ≡ some rest)
decrypt_with-accepted o key nonce cipher tag h =
    elim (Bool-cases (
      not o.ctx_new
      || not o.decrypt_init
      || not o.decrypt_set_iv_len
      || not (o.decrypt_set_key key nonce))) [
        | inl e ↦ absurd (h (rw (decrypt_with, e) refl))
        | inr made ↦ elim (Option-cases (o.decrypt_update key nonce cipher)) [
          | inl e ↦ absurd (h (rw (decrypt_with, made, decrypt_data, e) refl))
          | inr u ↦ elim (Bool-cases (o.set_tag tag)) [
            | inr e ↦ absurd (h (rw (decrypt_with, made, decrypt_data, u.1, e) refl))
            | inl set ↦ elim (Option-cases (o.decrypt_final key nonce cipher tag)) [
              | inl e ↦ absurd (h (rw (decrypt_with, made, decrypt_data, u.1, set, e) refl))
              | inr f ↦ f
            ]
          ]
        ]
      ]

-- If decrypting gives anything, then a key of the service or the override was at hand and not zero, the
-- nonce has twelve bytes, and OpenSSL accepted the last sixteen bytes as the tag of the others.
pub decrypt_aes_gcm-accepted :
    (o : OpenSsl) (master cipher_with_tag nonce override : Bytes)
    → decrypt_aes_gcm o master cipher_with_tag nonce override ≢ []
    → (key : Bytes) × (rest : Bytes) × (active_key master override ≡ some key)
      × (is_zero key ≡ false)
      × (length nonce ≡ 12)
      × (o.decrypt_final key nonce
            (take (length cipher_with_tag - 16) cipher_with_tag)
            (drop (length cipher_with_tag - 16) cipher_with_tag)
          ≡ some rest)
unfolding decrypt_aes_gcm
decrypt_aes_gcm-accepted o master cipher_with_tag nonce override h =
    let n = length cipher_with_tag - 16 in
    elim (Bool-cases (ltb (length cipher_with_tag) 16 || not (length nonce == 12))) [
      | inl e ↦ absurd (h (rw (decrypt_aes_gcm, e) refl))
      | inr sizes ↦ elim (Option-cases (active_key master override)) [
        | inl e ↦ absurd (h (rw (decrypt_aes_gcm, sizes, e) refl))
        | inr key ↦ elim (Bool-cases (is_zero key.0)) [
          | inl e ↦ absurd (h (rw (decrypt_aes_gcm, sizes, key.1, e) refl))
          | inr nonzero ↦
              let e : decrypt_aes_gcm o master cipher_with_tag nonce override
                  ≡ decrypt_with o key.0 nonce (take n cipher_with_tag) (drop n cipher_with_tag) =
                rw (decrypt_aes_gcm, sizes, key.1, nonzero) refl in
              let f =
                decrypt_with-accepted o key.0 nonce (take n cipher_with_tag)
                  (drop n cipher_with_tag) (λ empty. h (e ∙ empty)) in
              (key.0, f.0, key.1, nonzero, ground (arith, sizes), f.1)
        ]
      ]
    ]

-- Only a plaintext that is not empty is encrypted.
pub encrypt_aes_gcm-some :
    (o : OpenSsl) (master plain : Bytes)
    → (encrypt_aes_gcm o master plain []).success ≡ true
    → is_empty_bytes plain ≡ false
unfolding encrypt_aes_gcm
encrypt_aes_gcm-some o master [] h = ground (arith, h)
encrypt_aes_gcm-some o master (b ∷ bs) h = refl
