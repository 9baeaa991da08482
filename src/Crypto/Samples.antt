-- ===== src/Crypto/Samples.antt =====
-- A cipher for tests: OpenSSL, as one that leaves the text as it is.
use neo_nect_desktop.Base.{
  ℕ, true, [], ◌∷◌, ◌++◌, refl, some, Option, none, length, sym, ap, ap₂, ◌∙◌,
}
use mathlib.Core.List.{append-nil}
use neo_nect_desktop.Crypto.{Bytes, OpenSsl}
use neo_nect_desktop.Crypto.RoundTrip.{Ready, IsGcm}

abbrev pub ones : ℕ → Bytes
ones ℕ.zero = []
ones (ℕ.suc n) = 1 ∷ ones n

-- A cipher that leaves the text as it is and gives sixteen bytes as the tag.
abbrev pub plain_cipher : OpenSsl
plain_cipher = record {
  sha256 = λ b. ones 32;
  static_salt = [];
  pbkdf2 = λ p s n l. some (ones 32);
  rand_bytes = λ n. some (ones n);
  ctx_new = true;
  encrypt_init = true;
  encrypt_set_iv_len = true;
  encrypt_set_key = λ k n. true;
  encrypt_update = λ k n p. some p;
  encrypt_final = λ k n p. some [];
  get_tag = λ k n p. some (ones 16);
  decrypt_init = true;
  decrypt_set_iv_len = true;
  decrypt_set_key = λ k n. true;
  decrypt_update = λ k n c. some c;
  set_tag = λ t. true;
  decrypt_final = λ k n c t. some [];
}

pub plain_cipher-Ready : Ready plain_cipher
plain_cipher-Ready = record {
  ctx_new = refl;
  init = refl;
  set_iv_len = refl;
  set_key = λ k n. refl;
  set_tag = λ t. refl;
}

abbrev pub value_of : Option Bytes → Bytes
value_of none = []
value_of (some b) = b

pub plain_cipher-IsGcm : IsGcm plain_cipher plain_cipher
plain_cipher-IsGcm = record {
  tag_size = λ k n p t e. sym (ap (λ o. length (value_of o)) e);
  inverse = λ k n p w r t a b c. (
    w ++ r,
    [],
    refl,
    refl,
    ap₂ (λ x y. x ++ y ++ []) (sym (ap value_of a)) (sym (ap value_of b))
        ∙ append-nil (p ++ [])
        ∙ append-nil p,
  );
}
