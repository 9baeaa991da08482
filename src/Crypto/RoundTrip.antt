-- ===== src/Crypto/RoundTrip.antt =====
-- Encryption and decryption of src/crypto/cryptoservice.cpp, one after the other and by themselves.
use neo_nect_desktop.Base.{
  ◌+◌, ◌-◌, ◌≤◌, true, false, ◌∷◌, ◌++◌, ◌≡◌, refl, sym, ap, subst, ◌∙◌, arith, Bool-cases,
  Option-cases, inl, inr, some, length, ltb, ◌==◌, ==_iff, length-append, take-length-append,
  drop-length-append,
}
use neo_nect_desktop.Crypto.{
  Bytes, OpenSsl, EncryptedPayload, seal, encrypt_data, encrypt_with, encrypt_aes_gcm,
  decrypt_aes_gcm, decrypt_aes_gcm_envelope, active_key, is_zero, is_empty_bytes,
  generate_random_bytes,
}

-- The calls of a run that decrypts succeed.
pub record Ready (o : OpenSsl) : Type 0 where
  pub ctx_new : o.ctx_new ≡ true
  pub init : o.decrypt_init ≡ true
  pub set_iv_len : o.decrypt_set_iv_len ≡ true
  pub set_key : (key nonce : Bytes) → o.decrypt_set_key key nonce ≡ true
  pub set_tag : (tag : Bytes) → o.set_tag tag ≡ true

-- What the documentation of AES-GCM says of the two runs: the tag has sixteen bytes, and a ciphertext
-- and its tag are turned back, with the same key and nonce, into the plaintext.
pub record IsGcm (o d : OpenSsl) : Type 0 where
  pub tag_size :
      (key nonce plain tag : Bytes) → o.get_tag key nonce plain ≡ some tag → length tag ≡ 16
  pub inverse :
      (key nonce plain written rest tag : Bytes)
      → o.encrypt_update key nonce plain ≡ some written
      → o.encrypt_final key nonce plain ≡ some rest
      → o.get_tag key nonce plain ≡ some tag
      → (first : Bytes) × (last : Bytes) × (d.decrypt_update key nonce (written ++ rest)
          ≡ some first)
        × (d.decrypt_final key nonce (written ++ rest) tag ≡ some last)
        × (first ++ last ≡ plain)

-- The end of an encryption that succeeded.
abbrev Written : OpenSsl → Bytes → Bytes → Bytes → EncryptedPayload → Type 0
Written o key nonce plain result =
    (written : Bytes) × (rest : Bytes) × (tag : Bytes) × (o.encrypt_update key nonce plain
      ≡ some written)
    × (o.encrypt_final key nonce plain ≡ some rest)
    × (o.get_tag key nonce plain ≡ some tag)
    × (result ≡ seal nonce (written ++ rest) tag)

encrypt_data-Written :
    (o : OpenSsl) (key nonce plain : Bytes)
    → (encrypt_data o key nonce plain).success ≡ true
    → Written o key nonce plain (encrypt_data o key nonce plain)
encrypt_data-Written o key nonce plain h = elim (Option-cases (o.encrypt_update key nonce plain)) [
  | inl e ↦ absurd (ground (arith, h, e))
  | inr w ↦ elim (Option-cases (o.encrypt_final key nonce plain)) [
    | inl e ↦ absurd (ground (arith, h, w.1, e))
    | inr r ↦ elim (Option-cases (o.get_tag key nonce plain)) [
      | inl e ↦ absurd (ground (arith, h, w.1, r.1, e))
      | inr t ↦ (w.0, r.0, t.0, w.1, r.1, t.1, rw (encrypt_data, w.1, r.1, t.1) refl)
    ]
  ]
]

encrypt_with-data :
    (o : OpenSsl) (key nonce plain : Bytes)
    → (encrypt_with o key nonce plain).success ≡ true
    → encrypt_with o key nonce plain ≡ encrypt_data o key nonce plain
encrypt_with-data o key nonce plain h = elim (Bool-cases o.ctx_new) [
  | inr e ↦ absurd (ground (arith, h, e))
  | inl a ↦ elim (Bool-cases o.encrypt_init) [
    | inr e ↦ absurd (ground (arith, h, a, e))
    | inl b ↦ elim (Bool-cases o.encrypt_set_iv_len) [
      | inr e ↦ absurd (ground (arith, h, a, b, e))
      | inl c ↦ elim (Bool-cases (o.encrypt_set_key key nonce)) [
        | inr e ↦ absurd (ground (arith, h, a, b, c, e))
        | inl d ↦ rw (a, b, c, d) refl
      ]
    ]
  ]
]

-- An encryption that succeeded.
record Sealed (o : OpenSsl) (master plain override : Bytes) : Type 0 where
  pub key : Bytes
  pub nonce : Bytes
  pub is_key : active_key master override ≡ some key
  pub not_zero : is_zero key ≡ false
  pub nonce_size : length nonce ≡ 12
  pub written : Written o key nonce plain (encrypt_aes_gcm o master plain override)

encrypt_aes_gcm-Sealed :
    (o : OpenSsl) (master plain override : Bytes)
    → (encrypt_aes_gcm o master plain override).success ≡ true
    → Sealed o master plain override
unfolding encrypt_aes_gcm
encrypt_aes_gcm-Sealed o master plain override h = elim (Bool-cases (is_empty_bytes plain)) [
  | inl e ↦ absurd (ground (arith, h, e))
  | inr filled ↦ elim (Option-cases (active_key master override)) [
    | inl e ↦ absurd (ground (arith, h, filled, e))
    | inr key ↦ elim (Bool-cases (is_zero key.0)) [
      | inl e ↦ absurd (ground (arith, h, filled, key.1, e))
      | inr nonzero ↦
          let nonce = generate_random_bytes o 12 in
          elim (Bool-cases (length nonce == 12)) [
            | inr e ↦ absurd (ground (arith, h, filled, key.1, nonzero, e))
            | inl size ↦
                let e : encrypt_aes_gcm o master plain override ≡ encrypt_with o key.0 nonce plain =
                  rw (encrypt_aes_gcm, filled, key.1, nonzero, size) refl in
                let ok : (encrypt_with o key.0 nonce plain).success ≡ true =
                  ap (λ r. r.success) (sym e) ∙ h in
                let e2 = encrypt_with-data o key.0 nonce plain ok in
                record {
                  key = key.0;
                  nonce = nonce;
                  is_key = key.1;
                  not_zero = nonzero;
                  nonce_size = (==_iff (length nonce) 12).0 size;
                  written = subst (Written o key.0 nonce plain) (sym (e ∙ e2)) (
                      encrypt_data-Written o key.0 nonce plain (ap (λ r. r.success) (sym e2) ∙ ok));
                }
          ]
    ]
  ]
]

-- A ciphertext and a tag of a key and a nonce, as OpenSSL gave them, are decrypted.
decrypt_aes_gcm_of_tag :
    (d : OpenSsl) (master override key nonce cipher tag first last : Bytes)
    → Ready d
    → active_key master override ≡ some key
    → is_zero key ≡ false
    → length nonce ≡ 12
    → length tag ≡ 16
    → d.decrypt_update key nonce cipher ≡ some first
    → d.decrypt_final key nonce cipher tag ≡ some last
    → decrypt_aes_gcm d master (cipher ++ tag) nonce override ≡ first ++ last
unfolding decrypt_aes_gcm
decrypt_aes_gcm_of_tag d master override key nonce cipher tag first last r k z n t u f =
    let size = length-append cipher tag in
    let long : ltb (length (cipher ++ tag)) 16 ≡ false = ground (arith, size, t) in
    let cut : length (cipher ++ tag) - 16 ≡ length cipher = omega (arith, size, t) in
    let of_size : (length nonce == 12) ≡ true = ground (arith, n) in
    rw
      (
        decrypt_aes_gcm,
        long,
        of_size,
        k,
        z,
        cut,
        take-length-append cipher tag,
        drop-length-append cipher tag,
        r.ctx_new,
        r.init,
        r.set_iv_len,
        r.set_key key nonce,
        u,
        r.set_tag tag,
        f,
      )
      refl

-- The envelope is taken apart into the nonce and the ciphertext.
decrypt_aes_gcm_envelope_of_parts :
    (d : OpenSsl) (master override nonce cipher_with_tag : Bytes)
    → length nonce ≡ 12
    → 16 ≤ length cipher_with_tag
    → decrypt_aes_gcm_envelope d master (1 ∷ length nonce ∷ (nonce ++ cipher_with_tag)) override
      ≡ decrypt_aes_gcm d master cipher_with_tag nonce override
unfolding decrypt_aes_gcm_envelope
decrypt_aes_gcm_envelope_of_parts d master override nonce cipher_with_tag n h =
    let size = length-append nonce cipher_with_tag in
    let of_size : (length nonce == 12) ≡ true = ground (arith, n) in
    let long : ltb (2 + length (nonce ++ cipher_with_tag)) (2 + length nonce + 16) ≡ false =
      ground (arith, size, h) in
    rw
      (
        of_size,
        long,
        take-length-append nonce cipher_with_tag,
        drop-length-append nonce cipher_with_tag,
      )
      refl

-- If an encryption succeeded, OpenSSL is AES-GCM between the two runs and its calls succeed in the run
-- that decrypts, then the envelope, and the ciphertext with the nonce by themselves, decrypt with the
-- same keys to the plaintext.
pub decrypt_aes_gcm-encrypt_aes_gcm :
    (o d : OpenSsl) (master plain override : Bytes)
    → IsGcm o d
    → Ready d
    → (encrypt_aes_gcm o master plain override).success ≡ true
    → let sealed = encrypt_aes_gcm o master plain override in
      (decrypt_aes_gcm_envelope d master sealed.envelope override ≡ plain)
      × (decrypt_aes_gcm d master sealed.cipher_with_tag sealed.nonce override ≡ plain)
decrypt_aes_gcm-encrypt_aes_gcm o d master plain override gcm ready h =
    let s = encrypt_aes_gcm-Sealed o master plain override h in
    let (written, rest, tag, u, f, g, result) = s.written in
    let (first, last, du, df, whole) = gcm.inverse s.key s.nonce plain written rest tag u f g in
    let t = gcm.tag_size s.key s.nonce plain tag g in
    let opened : decrypt_aes_gcm d master (written ++ rest ++ tag) s.nonce override ≡ plain =
      decrypt_aes_gcm_of_tag d master override s.key s.nonce (written ++ rest) tag first last ready
        s.is_key s.not_zero s.nonce_size t du df
      ∙ whole in
    let long : 16 ≤ length (written ++ rest ++ tag) =
      omega (arith, t, length-append (written ++ rest) tag) in
    rw result (
      decrypt_aes_gcm_envelope_of_parts d master override s.nonce (written ++ rest ++ tag)
            s.nonce_size long
          ∙ opened,
      opened,
    )

-- If OpenSSL is AES-GCM, the envelope of an encryption that succeeded is a version byte 1, the byte 12, a nonce of twelve
-- bytes and the ciphertext with a tag of sixteen bytes at its end.
pub encrypt_aes_gcm-envelope :
    (o d : OpenSsl) (master plain override : Bytes)
    → IsGcm o d
    → (encrypt_aes_gcm o master plain override).success ≡ true
    → let sealed = encrypt_aes_gcm o master plain override in
      (sealed.envelope ≡ 1 ∷ 12 ∷ (sealed.nonce ++ sealed.cipher_with_tag))
      × (length sealed.nonce ≡ 12)
      × ((cipher : Bytes) × (tag : Bytes) × (sealed.cipher_with_tag ≡ cipher ++ tag)
          × (length tag ≡ 16))
encrypt_aes_gcm-envelope o d master plain override gcm h =
    let s = encrypt_aes_gcm-Sealed o master plain override h in
    let (written, rest, tag, u, f, g, result) = s.written in
    rw (result, s.nonce_size)
      (refl, refl, (written ++ rest, tag, refl, gcm.tag_size s.key s.nonce plain tag g))
