-- ===== src/Settings/Token.antt =====
-- The token that src/storage/settingsrepository.cpp keeps encrypted in the file.
use neo_nect_desktop.Base.{
  ◌≤◌, true, false, [], ◌∷◌, ◌≡◌, refl, ap, ◌∙◌, arith, length, length-append,
}
use neo_nect_desktop.Base.Json.{Members, Json, member, member_and, no_members}
use neo_nect_desktop.Base.Text.{String, is_empty}
use neo_nect_desktop.Crypto.{Bytes, OpenSsl, encrypt_aes_gcm, is_empty_bytes}
use neo_nect_desktop.Crypto.Accepted.{encrypt_aes_gcm-some}
use neo_nect_desktop.Crypto.RoundTrip.{
  Ready, IsGcm, decrypt_aes_gcm-encrypt_aes_gcm, encrypt_aes_gcm-envelope,
}
use neo_nect_desktop.Qt.{Qt}
use neo_nect_desktop.Relay.{Web}
use neo_nect_desktop.Relay.Delivered.{Codec}
use neo_nect_desktop.Settings.Values.{value-set_value}
use neo_nect_desktop.Settings.{
  SettingsRepository, Machine, get_machine_key, encrypt_string, decrypt_string, auth_token,
  set_auth_token, settings_repository, get_group_name,
}

is_empty_bytes-length : (b : Bytes) → 1 ≤ length b → is_empty_bytes b ≡ false
is_empty_bytes-length [] h = absurd (ground (arith, h))
is_empty_bytes-length (x ∷ xs) h = refl

-- What is encrypted has a nonce, and a tag at least.
encrypt_aes_gcm-sizes :
    (o : OpenSsl) (master plain : Bytes)
    → IsGcm o o
    → (encrypt_aes_gcm o master plain []).success ≡ true
    → let sealed = encrypt_aes_gcm o master plain [] in
      (is_empty_bytes sealed.cipher_with_tag ≡ false) × (is_empty_bytes sealed.nonce ≡ false)
encrypt_aes_gcm-sizes o master plain gcm success =
    let sealed = encrypt_aes_gcm o master plain [] in
    let (envelope, nonce, (cipher, tag, whole, size)) =
      encrypt_aes_gcm-envelope o o master plain [] gcm success in
    (
      is_empty_bytes-length sealed.cipher_with_tag
          (omega (arith, ap length whole, size, length-append cipher tag)),
      is_empty_bytes-length sealed.nonce (omega (arith, nonce)),
    )

-- The object that holds an encrypted text.
abbrev pub sealed_object : Web → Machine → String → Members
sealed_object w m s =
    let enc = encrypt_aes_gcm m.ssl (get_machine_key m) (w.to_utf8 s) [] in
    member_and "ct" (Json.text (w.to_base64 enc.cipher_with_tag))
      (member_and "iv" (Json.text (w.to_base64 enc.nonce)) no_members)

decrypt_string-encrypt_string :
    (w : Web) (m : Machine) (s : String)
    → Codec w (sealed_object w m s)
    → w.from_utf8 (w.to_utf8 s) ≡ s
    → IsGcm m.ssl m.ssl
    → Ready m.ssl
    → (encrypt_aes_gcm m.ssl (get_machine_key m) (w.to_utf8 s) []).success ≡ true
    → is_empty s ≡ false
    → decrypt_string w m (encrypt_string w m s) ≡ s
unfolding decrypt_string encrypt_string member
decrypt_string-encrypt_string w m s codec utf8 gcm ready success some_s =
    let plain = w.to_utf8 s in
    let enc = encrypt_aes_gcm m.ssl (get_machine_key m) plain [] in
    let object = sealed_object w m s in
    let (read, parsed, f, h) = codec.json in
    let (some_cipher, some_nonce) =
      encrypt_aes_gcm-sizes m.ssl (get_machine_key m) plain gcm success in
    let opened =
      (decrypt_aes_gcm-encrypt_aes_gcm m.ssl m.ssl (get_machine_key m) plain [] gcm ready
        success).1 in
    let encrypted : encrypt_string w m s ≡ w.to_base64 (w.to_json object) =
      rw (encrypt_string, some_s, success) refl in
    ap (decrypt_string w m) encrypted
    ∙ rw
        (
          decrypt_string,
          codec.some_text (w.to_json object) codec.some_json,
          codec.base64 (w.to_json object),
          parsed,
          f "ct",
          f "iv",
          codec.base64 enc.cipher_with_tag,
          codec.base64 enc.nonce,
          some_cipher,
          some_nonce,
          opened,
          encrypt_aes_gcm-some m.ssl (get_machine_key m) plain success,
        )
        utf8

-- If bytes and the object that is kept are read back as they were written, OpenSSL is AES-GCM and its calls succeed, then a
-- token that was set, and encrypted, is read by another repository on the same file for the same
-- profile.
pub auth_token-set_auth_token :
    (q : Qt) (w : Web) (m : Machine) (token : String) (r : SettingsRepository)
    → Codec w (sealed_object w m token)
    → w.from_utf8 (w.to_utf8 token) ≡ token
    → IsGcm m.ssl m.ssl
    → Ready m.ssl
    → (encrypt_aes_gcm m.ssl (get_machine_key m) (w.to_utf8 token) []).success ≡ true
    → is_empty token ≡ false
    → q.trimmed r.profile ≡ r.profile
    → (auth_token w m (settings_repository q r.profile (set_auth_token w m token r).store)).0
      ≡ token
unfolding auth_token set_auth_token settings_repository get_group_name
auth_token-set_auth_token q w m token r codec utf8 gcm ready success some_token same = rw same (
    ap (decrypt_string w m) (
      value-set_value "auth_token" (encrypt_string w m token)
        (record r { cached_auth_token = token }))
    ∙ decrypt_string-encrypt_string w m token codec utf8 gcm ready success some_token)
