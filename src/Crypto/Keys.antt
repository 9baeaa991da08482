-- ===== src/Crypto/Keys.antt =====
-- The keys of src/crypto/cryptoservice.cpp: their length, and what a service without a key does.
use neo_nect_desktop.Base.{
  ℕ, zero, suc, ◌-◌, ◌≤◌, min, true, false, ◌||◌, not, [], ◌≡◌, refl, sym, ap, subst, ◌∙◌, arith,
  Bool-cases, inl, inr, some, length, take, drop, ltb, ◌==◌, length-append, length-take,
  length-drop, take_of_length-le, drop_of_length-le,
}
use mathlib.Core.List.{append-nil}
use neo_nect_desktop.Crypto.{
  Bytes, OpenSsl, encrypt_aes_gcm, decrypt_aes_gcm, active_key, is_zero, is_empty_bytes, zeros,
  resize, copy, set_master_key,
}

length-zeros : (n : ℕ) → length (zeros n) ≡ n
unfolding zeros
length-zeros zero = refl
length-zeros (suc n) = ap suc (length-zeros n)

length-resize : (n : ℕ) (xs : Bytes) → length (resize n xs) ≡ n
unfolding resize
length-resize n xs = omega (
  arith,
  length-append (take n xs) (zeros (n - length xs)),
  length-take n xs,
  length-zeros (n - length xs),
)

length-copy :
    (n : ℕ) (from to : Bytes)
    → n ≤ length from
    → n ≤ length to
    → length (copy n from to) ≡ length to
unfolding copy
length-copy n from to h k =
    omega (arith, length-append (take n from) (drop n to), length-take n from, length-drop n to)

-- Whatever the key handed over and the one before it, the master key has 32 bytes.
length-set_master_key : (key master : Bytes) → length (set_master_key key master) ≡ 32
unfolding set_master_key
length-set_master_key key master =
    let r = length-resize 32 master in
    length-copy (min (length key) 32) key (resize 32 master) (omega arith) (omega (arith, r)) ∙ r

copied : (from to : Bytes) → length to ≡ length from → copy (length from) from to ≡ from
unfolding copy
copied from to h =
    rw
      (
        take_of_length-le (length from) from (omega arith),
        drop_of_length-le (length from) to (omega (arith, h)),
      )
      (append-nil from)

active_key-master : (master : Bytes) → active_key master [] ≡ some master
unfolding active_key
active_key-master master =
    let r = length-resize (length master) (zeros 32) in
    ap some (copied master (resize (length master) (zeros 32)) r)

-- A key of 32 bytes takes the place of the master key, whatever that was, and is the one that an
-- encryption without an override works with.
active_key-set_master_key :
    (key master : Bytes)
    → length key ≡ 32
    → (set_master_key key master ≡ key) × (active_key (set_master_key key master) [] ≡ some key)
unfolding set_master_key copy active_key
active_key-set_master_key key master n =
    let m : min (length key) 32 ≡ 32 = omega (arith, n) in
    let r = length-resize 32 master in
    let set : set_master_key key master ≡ key =
      rw
        (
          set_master_key,
          m,
          take_of_length-le 32 key (omega (arith, n)),
          drop_of_length-le 32 (resize 32 master) (omega (arith, r)),
        )
        (append-nil key) in
    let used : active_key key [] ≡ some key = active_key-master key in
    (set, subst (λ k. active_key k [] ≡ some key) (sym set) used)

-- Without an override, a service whose master key is zero or empty encrypts nothing and decrypts nothing.
encrypt_aes_gcm_of_zero :
    (o : OpenSsl) (master plain cipher_with_tag nonce : Bytes)
    → is_zero master ≡ true
    → ((encrypt_aes_gcm o master plain []).success ≡ false)
      × (decrypt_aes_gcm o master cipher_with_tag nonce [] ≡ [])
unfolding encrypt_aes_gcm decrypt_aes_gcm
encrypt_aes_gcm_of_zero o master plain cipher_with_tag nonce z =
    let key = active_key-master master in
    (
      elim (Bool-cases (is_empty_bytes plain)) [
        | inl e ↦ rw (encrypt_aes_gcm, e) refl
        | inr e ↦ rw (encrypt_aes_gcm, e, key, z) refl
      ],
      elim (Bool-cases (ltb (length cipher_with_tag) 16 || not (length nonce == 12))) [
        | inl e ↦ rw (decrypt_aes_gcm, e) refl
        | inr e ↦ rw (decrypt_aes_gcm, e, key, z) refl
      ],
    )
