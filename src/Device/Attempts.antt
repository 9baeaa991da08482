-- ===== src/Device/Attempts.antt =====
-- A registration of src/services/deviceservice.cpp over any answers of the server.
use neo_nect_desktop.Base.{
  ℕ, zero, suc, ◌-◌, ◌*◌, ◌<◌, ◌≤◌, Bool, true, false, ◌&&◌, ◌||◌, not, leb, List, [], ◌∷◌, ◌++◌,
  Option, none, some, ◌≡◌, refl, ap, ◌∙◌, arith, pos, eqb_ℤ, if◌then◌else◌, Bool-cases, inl, inr,
}
use neo_nect_desktop.Base.Text.{String, is_empty}
use neo_nect_desktop.Socket.State.{Network}
use neo_nect_desktop.Relay.{ISettingsRepository, Web}
use neo_nect_desktop.Device.{
  Stage, posts, counts, claims, prunes, Callback, registration, Effect, device_registration_result,
  device_revocation_result, device_key_fetched, recipient_keys_fetched, post, get, delete_resource,
  DeviceService, Answer, Fresh, report, prune, oldest, error_of, ask_devices, limit_text,
  ep_relay_keys, devices_of, has_device, user_of, fresh_device, register_device_internal,
  register_device, on_posted, on_counted, on_pruned, on_claimed, on_registration, on_answer,
}

-- The callback that waits for an answer after the last effect of a log.
abbrev pub callback_of : Effect → Option Callback
callback_of (device_registration_result ok message) = none
callback_of (device_revocation_result ok message) = none
callback_of (device_key_fetched id key) = none
callback_of (recipient_keys_fetched user devices) = none
callback_of (post endpoint body callback) = some callback
callback_of (delete_resource endpoint body callback) = some callback
callback_of (get endpoint key v callback) = some callback

unfoldable pub awaited : List Effect → Option Callback
awaited [] = none
awaited (e ∷ []) = callback_of e
awaited (e ∷ e' ∷ log) = awaited (e' ∷ log)

awaited-append : (log : List Effect) (e : Effect) → awaited (log ++ e ∷ []) ≡ callback_of e
unfolding awaited
awaited-append [] e = refl
awaited-append (e' ∷ []) e = refl
awaited-append (e' ∷ e'' ∷ log) e = awaited-append (e'' ∷ log) e

-- The log ends with the result of a registration.
pub record IsReported (log : List Effect) : Type 0 where
  pub before : List Effect
  pub ok : Bool
  pub message : String
  pub ends : log ≡ before ++ device_registration_result ok message ∷ []

-- The answers that a registration takes at most, from a request on.
abbrev pub budget : Stage → ℕ → ℕ
budget posts attempt = 3 * (3 - attempt)
budget counts attempt = 3 * (3 - attempt) - 1
budget claims attempt = 3 * (3 - attempt) - 1
budget prunes attempt = 3 * (3 - attempt) - 2

-- A call ends the registration, or it adds one request with less to come.
data Turn {S : Type 0} (bound : ℕ) (s : DeviceService S) : Type 0 where
  reports : IsReported s.log → Turn bound s
  asks :
      (stage : Stage) (device key : String) (attempt : ℕ)
      → awaited s.log ≡ some (registration stage device key attempt)
      → attempt < 3
      → budget stage attempt < bound
      → Turn bound s

module _ {S : Type 0} (i : ISettingsRepository S) (w : Web) (n : Network) where
  -- `count` answers are given at most, each to the request that waits for one.
  unfoldable pub exchange : (ℕ → Answer) → (ℕ → Fresh) → ℕ → ℕ → DeviceService S → DeviceService S
  exchange answers fresh k zero s = s
  exchange answers fresh k (suc count) s = elim (awaited s.log) [
    | none ↦ s
    | some callback ↦
        exchange answers fresh (suc k) count (on_answer i w n callback (answers k) (fresh k) s)
  ]

  Turn-if :
      (bound : ℕ) (b : Bool) (x y : DeviceService S)
      → Turn bound x
      → Turn bound y
      → Turn bound (if b then x else y)
  Turn-if bound true x y v u = v
  Turn-if bound false x y v u = u

  Turn-report :
      (bound : ℕ) (ok : Bool) (message : String) (s : DeviceService S)
      → Turn bound (report ok message s)
  Turn-report bound ok message s =
      reports (record { before = s.log; ok = ok; message = message; ends = refl })

  Turn-asks :
      (bound : ℕ) (stage : Stage) (device key : String) (attempt : ℕ) (e : Effect)
      (s : DeviceService S)
      → callback_of e ≡ some (registration stage device key attempt)
      → attempt < 3
      → budget stage attempt < bound
      → Turn bound (record s { log = s.log ++ e ∷ [] })
  Turn-asks bound stage device key attempt e s h few less =
      asks stage device key attempt (awaited-append s.log e ∙ h) few less

  register-Turn :
      (device key : String) (attempt bound : ℕ) (f : Fresh) (s : DeviceService S)
      → budget posts attempt < bound
      → Turn bound (register_device_internal i w n device key attempt f s)
  unfolding register_device_internal
  register-Turn device key attempt bound f s less = elim (Bool-cases (leb 3 attempt)) [
    | inl e ↦ rw (register_device_internal, e) (Turn-report bound false _ s)
    | inr e ↦
        let few : attempt < 3 = ground (arith, e) in
        rw (register_device_internal, e)
          (Turn-if bound (is_empty (i.auth_token s.settings)) _ _ (Turn-report bound false _ s)
            (Turn-asks bound posts _ _ attempt _ _ refl few less))
  ]

  prune-Turn :
      (device key : String) (attempt : ℕ) (id : Option String) (s : DeviceService S)
      → attempt < 3
      → Turn (budget counts attempt) (prune i w n device key attempt id s)
  prune-Turn device key attempt none s few = Turn-report _ false _ s
  prune-Turn device key attempt (some id) s few =
      Turn-asks _ prunes device key attempt _ s refl few (omega (arith, few))

  posted-Turn :
      (device key : String) (attempt : ℕ) (a : Answer) (s : DeviceService S)
      → attempt < 3
      → Turn (budget posts attempt) (on_posted i w n device key attempt a s)
  unfolding on_posted
  posted-Turn device key attempt a s few =
      let bound = budget posts attempt in
      let less : 3 * (3 - attempt) - 1 < 3 * (3 - attempt) = omega (arith, few) in
      let ask_counts : Turn bound (ask_devices i w n counts device key attempt s) =
        Turn-asks bound counts device key attempt
          (get ep_relay_keys "u" (user_of i w n s) (registration counts device key attempt)) s refl
          few less in
      let ask_claims : Turn bound (ask_devices i w n claims device key attempt s) =
        Turn-asks bound claims device key attempt
          (get ep_relay_keys "u" (user_of i w n s) (registration claims device key attempt)) s refl
          few less in
      Turn-if bound (a.no_error || eqb_ℤ a.status (pos 201) || eqb_ℤ a.status (pos 200)) _ _
        (Turn-report bound true "Device registered" s)
        (Turn-if bound
          (eqb_ℤ a.status (pos 400)
            && w.contains_ci (error_of a) "maximum device limit reached"
            && not (is_empty (user_of i w n s)))
          _ _ ask_counts
          (Turn-if bound (eqb_ℤ a.status (pos 409)) _ _
            (Turn-if bound (is_empty (user_of i w n s)) _ _
              (Turn-report bound true "Device already registered" s) ask_claims)
            (Turn-report bound false
              (if is_empty (error_of a) then "Device registration failed" else error_of a) s)))

  counted-Turn :
      (device key : String) (attempt : ℕ) (a : Answer) (s : DeviceService S)
      → attempt < 3
      → Turn (budget counts attempt) (on_counted i w n device key attempt a s)
  unfolding on_counted
  counted-Turn device key attempt a s few =
      let bound = budget counts attempt in
      Turn-if bound (not (eqb_ℤ a.status (pos 200))) _ _ (Turn-report bound false limit_text s) (
        Turn-if bound (has_device device (devices_of a)) _ _
          (Turn-report bound true "Device already registered" s)
          (prune-Turn device key attempt (oldest (devices_of a)) s few))

  claimed-Turn :
      (device key : String) (attempt : ℕ) (a : Answer) (f : Fresh) (s : DeviceService S)
      → attempt < 3
      → Turn (budget claims attempt) (on_claimed i w n device key attempt a f s)
  unfolding on_claimed
  claimed-Turn device key attempt a f s few =
      let bound = budget claims attempt in
      let made = fresh_device i w n f s in
      Turn-if bound (eqb_ℤ a.status (pos 200) && has_device device (devices_of a)) _ _
        (Turn-report bound true "Device already registered" s)
        (register-Turn made key (suc attempt) bound f
          (record s { settings = i.set_device_id made s.settings }) (omega (arith, few)))

  pruned-Turn :
      (device key : String) (attempt : ℕ) (a : Answer) (f : Fresh) (s : DeviceService S)
      → attempt < 3
      → Turn (budget prunes attempt) (on_pruned i w n device key attempt a f s)
  unfolding on_pruned
  pruned-Turn device key attempt a f s few =
      let bound = budget prunes attempt in
      Turn-if bound (eqb_ℤ a.status (pos 200)) _ _
        (register-Turn device key (suc attempt) bound f s (omega (arith, few)))
        (Turn-report bound false limit_text s)

  on_registration-Turn :
      (stage : Stage) (device key : String) (attempt : ℕ) (a : Answer) (f : Fresh)
      (s : DeviceService S)
      → attempt < 3
      → Turn (budget stage attempt) (on_registration i w n stage device key attempt a f s)
  unfolding on_registration
  on_registration-Turn posts device key attempt a f s few = posted-Turn device key attempt a s few
  on_registration-Turn counts device key attempt a f s few = counted-Turn device key attempt a s few
  on_registration-Turn claims device key attempt a f s few =
      claimed-Turn device key attempt a f s few
  on_registration-Turn prunes device key attempt a f s few =
      pruned-Turn device key attempt a f s few

  exchange-stops :
      (answers : ℕ → Answer) (fresh : ℕ → Fresh) (k count : ℕ) (s : DeviceService S)
      → awaited s.log ≡ none
      → exchange answers fresh k count s ≡ s
  unfolding exchange
  exchange-stops answers fresh k zero s e = refl
  exchange-stops answers fresh k (suc count) s e = rw (exchange, e) refl

  exchange-Turn :
      (answers : ℕ → Answer) (fresh : ℕ → Fresh) (k count bound : ℕ) (s : DeviceService S)
      → Turn bound s
      → bound ≤ suc count
      → IsReported (exchange answers fresh k count s).log
  unfolding exchange on_answer
  exchange-Turn answers fresh k count bound s (reports r) h =
      let e =
        exchange-stops answers fresh k count s (ap awaited r.ends ∙ awaited-append r.before _) in
      rw e r
  exchange-Turn answers fresh k zero bound s (asks posts device key attempt e few less) h =
      absurd (omega (arith, few, less, h))
  exchange-Turn answers fresh k zero bound s (asks counts device key attempt e few less) h =
      absurd (omega (arith, few, less, h))
  exchange-Turn answers fresh k zero bound s (asks claims device key attempt e few less) h =
      absurd (omega (arith, few, less, h))
  exchange-Turn answers fresh k zero bound s (asks prunes device key attempt e few less) h =
      absurd (omega (arith, few, less, h))
  exchange-Turn answers fresh k (suc count) bound s (asks stage device key attempt e few less) h =
      rw (exchange, e)
        (exchange-Turn answers fresh (suc k) count (budget stage attempt) _
          (on_registration-Turn stage device key attempt (answers k) (fresh k) s few)
          (omega (arith, less, h)))

  -- Whatever the server answers, and whatever is stored or made, a registration has reported its
  -- result after nine answers at most, and asks for nothing more.
  pub register_device-IsReported :
      (answers : ℕ → Answer) (fresh : ℕ → Fresh) (device_id public_key : String) (f : Fresh)
      (s : DeviceService S)
      → IsReported (exchange answers fresh 0 9 (register_device i w n device_id public_key f s)).log
  unfolding register_device
  register_device-IsReported answers fresh device_id public_key f s =
      exchange-Turn answers fresh 0 9 10 _
        (register-Turn device_id public_key 0 10 f s (omega arith)) (omega arith)
