-- ===== src/Relay/Samples.antt =====
-- A concrete web library and settings for tests: bytes are written as a's and b's, and one object is
-- the answer of the JSON parser.
use neo_nect_desktop.Base.{
  ℕ, zero, suc, ◌+◌, true, false, List, [], ◌∷◌, ◌≡◌, refl, ap, ◌∙◌, some, if◌then◌else◌, arith,
}
use neo_nect_desktop.Base.Json.{Members}
use neo_nect_desktop.Base.Text.{String, ◌==◌, is_empty}
use Prim.Native.Char.{Char}
use neo_nect_desktop.Crypto.{Bytes, is_empty_bytes}
use neo_nect_desktop.Crypto.Samples.{ones}
use neo_nect_desktop.Messaging.Samples.{plain_platform}
use neo_nect_desktop.Relay.{Web, RelayService}
use neo_nect_desktop.Relay.Delivered.{Codec}
use neo_nect_desktop.Socket.Client.Samples.{online}

abbrev pub a_char : Char
a_char = "a"

abbrev pub b_char : Char
b_char = "b"

-- A number as so many a's and a b, before a text.
unfoldable pub unary : ℕ → String → String
unary zero s = String.◌∷◌ b_char s
unary (suc n) s = String.◌∷◌ a_char (unary n s)

unfoldable pub plain_text : Bytes → String
plain_text [] = ""
plain_text (n ∷ ns) = unary n (plain_text ns)

unfoldable pub plain_bytes : ℕ → String → Bytes
plain_bytes n String.[] = []
plain_bytes n (String.◌∷◌ c s) =
    let more = plain_bytes (suc n) s in
    let next = n ∷ plain_bytes 0 s in if String.◌∷◌ c String.[] == "a" then more else next

plain_bytes-unary : (k n : ℕ) (s : String) → plain_bytes k (unary n s) ≡ (k + n) ∷ plain_bytes 0 s
unfolding plain_bytes unary
plain_bytes-unary k zero s =
    let e : k ≡ k + 0 = omega arith in ap (λ (j : ℕ). j ∷ plain_bytes 0 s) e
plain_bytes-unary k (suc n) s =
    let e : suc k + n ≡ k + suc n = omega arith in
    plain_bytes-unary (suc k) n s ∙ ap (λ (j : ℕ). j ∷ plain_bytes 0 s) e

plain_bytes-plain_text : (b : Bytes) → plain_bytes 0 (plain_text b) ≡ b
unfolding plain_text
plain_bytes-plain_text [] = unfold plain_bytes in refl
plain_bytes-plain_text (n ∷ ns) =
    let e : 0 + n ≡ n = omega arith in
    plain_bytes-unary 0 n (plain_text ns)
    ∙ ap (λ (j : ℕ). j ∷ plain_bytes 0 (plain_text ns)) e
    ∙ ap (λ (t : Bytes). n ∷ t) (plain_bytes-plain_text ns)

plain_text-some : (b : Bytes) → is_empty_bytes b ≡ false → is_empty (plain_text b) ≡ false
unfolding plain_text unary
plain_text-some [] h = absurd (ground (arith, h))
plain_text-some (zero ∷ ns) h = refl
plain_text-some (suc n ∷ ns) h = refl

-- A library whose parser knows one object.
abbrev pub web_of : Members → Web
web_of object = record {
  platform = plain_platform;
  to_json = λ m. 7 ∷ [];
  of_json = λ b. some object;
  to_base64 = plain_text;
  of_base64 = plain_bytes 0;
  to_utf8 = λ s. 8 ∷ [];
  from_utf8 = λ b. "t";
  contains_ci = λ a b. false;
  read_file = λ path. neo_nect_desktop.Base.none;
  can_write = λ path. false;
  name_of = λ path. path;
  url_of = λ path. path;
  data_location = "";
}

pub web_of-Codec : (object : Members) → Codec (web_of object) object
web_of-Codec object = record {
  json = (object, refl, λ key. refl, λ key. refl);
  some_json = refl;
  base64 = plain_bytes-plain_text;
  some_text = plain_text-some;
}

module _ {S : Type 0} where
  -- A service with some settings, and a key.
  abbrev pub idle_service : S → RelayService S
  idle_service settings = record {
    is_polling = false;
    is_polling_active = false;
    is_ws_connected = false;
    retry_401_count = 0;
    processed_message_ids = [];
    ws_client = online;
    settings = settings;
    master = ones 32;
    base_url = "relay";
    log = [];
  }
