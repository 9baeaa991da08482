-- ===== src/Socket/Frame/Stream.antt =====
-- The buffer of `processFrames` as a stream: which bytes make frames, how the split of the stream
-- into reads matters, and where the 64-bit length overflows.
use native.Mathlib.Decide.{dec_le}
use neo_nect_desktop.Base.{
  ℕ, ◌+◌, ◌-◌, ◌/◌, ◌%◌, ◌≤◌, ◌<◌, ◌^◌, ◌≡◌, Bool, true, List, [], ◌∷◌, ◌++◌, none, some, ◌⊎◌, inl,
  inr, arith, length, drop, length-append, length-drop, get_or-append, slice-append,
  drop-append_of_le, ltb, if◌then◌else◌, Option-cases, ◌==◌,
}
use neo_nect_desktop.Socket.Frame.RoundTrip.{to_int-of_lt}
use neo_nect_desktop.Socket.Frame.{
  Header, Frame, to_int, mid, remove, extended, with_mask, read_header, total_len, payload_of,
  next_frame, u64_mod,
}

extended-append :
    (b c : List ℕ) (n : ℕ) {l : ℕ × ℕ} → extended b n ≡ some l → extended (b ++ c) n ≡ some l
unfolding extended
extended-append b c n h =
    ground
      (arith, length-append b c, get_or-append b c 2 0, get_or-append b c 3 0, slice-append 8 2 b c)

with_mask-append :
    (b c : List ℕ) (op : ℕ) (m : Bool) (l : ℕ × ℕ) {h : Header}
    → with_mask b op m l ≡ some h
    → with_mask (b ++ c) op m l ≡ some h
unfolding with_mask
with_mask-append b c op m l e = ground (arith, length-append b c)

-- A header that is complete is not changed by the bytes that follow.
read_header-append :
    (b c : List ℕ) {h : Header} → read_header b ≡ some h → read_header (b ++ c) ≡ some h
unfolding read_header
read_header-append [] c e = cc
read_header-append (b0 ∷ []) c e = cc
read_header-append (b0 ∷ b1 ∷ b) c e = elim (Option-cases (extended (b0 ∷ b1 ∷ b) (b1 % 128))) [
  | inl none' ↦ absurd (ground arith)
  | inr (l, got) ↦
      rw (extended-append (b0 ∷ b1 ∷ b) c (b1 % 128) got, read_header)
        (with_mask-append (b0 ∷ b1 ∷ b) c (b0 % 16) (b1 / 128 % 2 == 1) l (ground arith))
]

-- A complete header lies within the buffer.
header_len-le :
    (b : List ℕ) {h : Header}
    → read_header b ≡ some h
    → (2 ≤ h.header_len) × (h.header_len ≤ length b)
unfolding read_header extended with_mask
header_len-le [] e = absurd (cc)
header_len-le (b0 ∷ []) e = absurd (cc)
header_len-le (b0 ∷ b1 ∷ b) e = ground arith

masked_header_len :
    (b : List ℕ) {h : Header} → read_header b ≡ some h → h.masked ≡ true → 6 ≤ h.header_len
unfolding read_header extended with_mask
masked_header_len [] e m = absurd (cc)
masked_header_len (b0 ∷ []) e m = absurd (cc)
masked_header_len (b0 ∷ b1 ∷ b) e m = ground arith

payload_of-append :
    (b c : List ℕ) (h : Header)
    → h.header_len + h.payload_len ≤ length b
    → (h.masked ≡ true → 6 ≤ h.header_len)
    → length b < 2 ^ 31
    → payload_of (b ++ c) h ≡ payload_of b h
unfolding payload_of mid
payload_of-append b c h fits m small = ground (
  arith,
  to_int-of_lt h.payload_len (omega arith),
  slice-append h.payload_len h.header_len b c fits,
  slice-append 4 (h.header_len - 4) b c,
)

-- The sum of the two lengths of the frame at the front of the buffer leaves 64 bits.
abbrev pub Overflows : List ℕ → Type 0
Overflows b = (h : Header) × (read_header b ≡ some h) × (u64_mod ≤ h.header_len + h.payload_len)

-- What a round of the loop does to a short buffer, for the header that it reads.
next_frame-header :
    (b : List ℕ) (h : Header)
    → read_header b ≡ some h
    → length b < 2 ^ 31
    → next_frame b ≡ (
        if ltb (length b) (total_len h)
        then none
        else some (record { opcode = h.opcode; payload = payload_of b h }, drop (total_len h) b))
unfolding next_frame remove
next_frame-header b h e small = ground (arith, e, to_int-of_lt (total_len h))

next_frame-ne-some :
    (b : List ℕ) {f : Frame} {r : List ℕ} → read_header b ≡ none → ¬ (next_frame b ≡ some (f, r))
unfolding next_frame
next_frame-ne-some b waits e = ground arith

next_frame-append_header :
    (b c : List ℕ) (h : Header) {f : Frame} {r : List ℕ}
    → read_header b ≡ some h
    → next_frame b ≡ some (f, r)
    → ¬ (u64_mod ≤ h.header_len + h.payload_len)
    → length (b ++ c) < 2 ^ 31
    → next_frame (b ++ c) ≡ some (f, r ++ c)
unfolding total_len
next_frame-append_header b c h got e sane small =
    let e1 : h.header_len + h.payload_len < 2 ^ 64 = omega arith in
    let e2 : total_len h ≡ h.header_len + h.payload_len = omega arith in
    ground (
      arith,
      next_frame-header b h got (omega (arith, length-append b c)),
      next_frame-header (b ++ c) h (read_header-append b c got) small,
      length-append b c,
      payload_of-append b c h,
      masked_header_len b got,
      drop-append_of_le (total_len h) b c,
    )

-- A frame that is complete is not changed by the bytes that follow, unless its length overflows.
next_frame-append :
    (b c : List ℕ) {f : Frame} {r : List ℕ}
    → next_frame b ≡ some (f, r)
    → ¬ Overflows b
    → length (b ++ c) < 2 ^ 31
    → next_frame (b ++ c) ≡ some (f, r ++ c)
next_frame-append b c e sane small = elim (Option-cases (read_header b)) [
  | inl waits ↦ absurd (next_frame-ne-some b waits e)
  | inr (h, got) ↦ next_frame-append_header b c h got e (λ big. sane (h, got, big)) small
]

-- The frames that rounds of the loop take from a buffer, and the bytes that they leave, where no
-- length overflows.
pub data Takes : List ℕ → List Frame → List ℕ → Type 0 where
  start : {b : List ℕ} → Takes b [] b
  round :
      {b r rest : List ℕ} {f : Frame} {fs : List Frame}
      → next_frame b ≡ some (f, r)
      → ¬ Overflows b
      → Takes r fs rest
      → Takes b (f ∷ fs) rest

-- All the frames of a buffer, with the incomplete rest.
abbrev pub Splits : List ℕ → List Frame → List ℕ → Type 0
Splits b fs rest = Takes b fs rest × (next_frame rest ≡ none)

drop-length-lt : (n : ℕ) (b : List ℕ) → 0 < n → n ≤ length b → length (drop n b) < length b
drop-length-lt n b p h = omega (arith, length-drop n b)

-- A round shortens a short buffer, unless the length overflows.
pub next_frame-shorter :
    (b : List ℕ) {f : Frame} {r : List ℕ}
    → next_frame b ≡ some (f, r)
    → ¬ Overflows b
    → length b < 2 ^ 31
    → length r < length b
unfolding total_len
next_frame-shorter b e sane small = elim (Option-cases (read_header b)) [
  | inl waits ↦ absurd (next_frame-ne-some b waits e)
  | inr (h, got) ↦
      let e1 : ¬ (u64_mod ≤ h.header_len + h.payload_len) = λ big. sane (h, got, big) in
      ground (
        arith,
        next_frame-header b h got small,
        header_len-le b got,
        drop-length-lt (total_len h) b,
      )
]

Overflows-cases : (b : List ℕ) → Overflows b ⊎ (¬ Overflows b)
Overflows-cases b = elim (Option-cases (read_header b)) [
  | inl waits ↦ inr (λ o. ground (arith, o.1))
  | inr (h, got) ↦ elim (dec_le u64_mod (h.header_len + h.payload_len)) [
    | yes big ↦ inl (h, got, big)
    | no sane ↦ inr (λ o. sane (let same : o.0 ≡ h = cc (o.1) in rw same at (o.2)))
  ]
]

Overflows-append :
    (b c : List ℕ) {f : Frame} {r : List ℕ}
    → next_frame b ≡ some (f, r)
    → Overflows (b ++ c)
    → Overflows b
Overflows-append b c e (h, got, big) = elim (Option-cases (read_header b)) [
  | inl waits ↦ absurd (next_frame-ne-some b waits e)
  | inr (h', got') ↦ let same : h ≡ h' = cc (read_header-append b c got') in (h, rw same got', big)
]

Takes-append :
    (c : List ℕ) {a r r' : List ℕ} {fs gs : List Frame}
    → Takes a fs r
    → Takes (r ++ c) gs r'
    → length (a ++ c) < 2 ^ 31
    → Takes (a ++ c) (fs ++ gs) r'
Takes-append c start t small = t
Takes-append c (round {b = b} {r = r} e sane s) t small =
    round (next_frame-append b c e sane small) (λ o. sane (Overflows-append b c e o))
      (Takes-append c s t (
        omega (
          arith,
          length-append b c,
          length-append r c,
          next_frame-shorter b e sane (omega (arith, length-append b c)),
        )))

-- How the bytes are cut into reads does not matter: the frames of the first read, and then those of
-- its incomplete rest with the second read behind it, are the frames of both reads at once.
pub Splits-append :
    (c : List ℕ) {a r r' : List ℕ} {fs gs : List Frame}
    → Splits a fs r
    → Splits (r ++ c) gs r'
    → length (a ++ c) < 2 ^ 31
    → Splits (a ++ c) (fs ++ gs) r'
Splits-append c (s, _) (t, w) small = (Takes-append c s t small, w)

-- The two lengths add up to 2 ^ 64, which is 0 in 64 bits: the payload length is 2 ^ 64 - 10, or
-- 2 ^ 64 - 14 with a mask.
abbrev pub LengthIsZero : List ℕ → Header → Type 0
LengthIsZero b h = (read_header b ≡ some h) × (h.header_len + h.payload_len ≡ u64_mod)

-- The round then gives a frame and removes nothing.
pub next_frame-LengthIsZero :
    (b : List ℕ) (h : Header)
    → LengthIsZero b h
    → next_frame b ≡ some (record { opcode = h.opcode; payload = payload_of b h }, b)
unfolding next_frame total_len remove to_int
next_frame-LengthIsZero b h (e, z) =
    let wraps : (h.header_len + h.payload_len) % u64_mod ≡ 0 = omega arith in
    ground (arith, e, wraps)
