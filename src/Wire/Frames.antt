-- ===== src/Wire/Frames.antt =====
-- What `from_wire` makes of the frames that `request_to_wire` builds.
use ads_async.Prelude.{
  drop_known, ℕ, ◌+◌, ◌≤◌, ◌<◌, ◌^◌, ◌≡◌, sym, ap, ◌∙◌, none, [], ◌∷◌, ◌++◌, arith, length, drop,
  length-append, drop-append, drop-drop, ltb, ◌==◌, if◌then◌else◌, le→ltb, lt→ltb, ltb→lt,
  Bool-cases, inl, inr, take, take-append, take-append_le, take-append-drop, true,
}
use mathlib.Core.List.{append_assoc}
use ads_async.Prelude.Result.{ok}
use ads_async.Bytes.{Bytes, size_of, length-pack}
use ads_async.Structs.Header.{
  AoEHeader, AoEFits, tcp_header, tcp_layout, aoe_layout, aoe_fields, serialize_tcp, serialize_aoe,
  tcp_from_buffer, aoe_from_buffer, tcp_from_buffer-serialize_tcp, aoe_from_buffer-serialize_aoe,
  command_id,
}
use ads_async.Wire.Defs.{emit, stop, parse_command, round, frame_bytes}

pub length-serialize_tcp : (n : ℕ) → length (serialize_tcp (tcp_header n)) ≡ 6
unfolding serialize_tcp size_of
length-serialize_tcp n = length-pack tcp_layout (0 ∷ n ∷ [])

length-serialize_aoe : (h : AoEHeader) → length (serialize_aoe h) ≡ 32
unfolding serialize_aoe size_of
length-serialize_aoe h = length-pack aoe_layout (aoe_fields h)

pub length-frame_bytes :
    (h : AoEHeader) (payload : Bytes) → length (frame_bytes h payload) ≡ 38 + length payload
unfolding frame_bytes
length-frame_bytes h payload = omega (
  arith,
  length-append (serialize_tcp (tcp_header (32 + length payload))) (serialize_aoe h ++ payload),
  length-append (serialize_aoe h) payload,
  length-serialize_tcp (32 + length payload),
  length-serialize_aoe h,
)

-- A round on a buffer that holds a whole frame.
round_whole :
    (buf : Bytes) (n : ℕ) (h : AoEHeader)
    → tcp_from_buffer buf ≡ ok (tcp_header n)
    → 32 ≤ n
    → 6 + n ≤ length buf
    → aoe_from_buffer (drop 6 buf) ≡ ok h
    → round buf ≡ (
        if 6 + 32 + h.length == 6 + n
        then parse_command (6 + n) h (drop 32 (drop 6 buf)) (drop (6 + n) buf) (command_id h)
        else emit (6 + n) none (drop (6 + n) buf))
unfolding round
round_whole buf n h tcp big whole aoe = rw (
  le→ltb (length buf) 6 (omega arith),
  tcp,
  le→ltb n 32 big,
  le→ltb (length buf) (6 + n) whole,
  aoe,
)

module _ (h : AoEHeader) (n : ℕ) (payload rest : Bytes) where
  -- A frame whose TCP header states the length `n`, and the bytes that follow it.
  abbrev pub stated : Bytes
  stated = serialize_tcp (tcp_header n) ++ (serialize_aoe h ++ (payload ++ rest))

  length-stated : length stated ≡ 38 + length payload + length rest
  length-stated = omega (
    arith,
    length-append (serialize_tcp (tcp_header n)) (serialize_aoe h ++ (payload ++ rest)),
    length-append (serialize_aoe h) (payload ++ rest),
    length-append payload rest,
    length-serialize_tcp n,
    length-serialize_aoe h,
  )

  drop-stated : drop 6 stated ≡ serialize_aoe h ++ (payload ++ rest)
  drop-stated = drop_known 6 (serialize_tcp (tcp_header n)) _ (length-serialize_tcp n)

  view-stated : drop 32 (drop 6 stated) ≡ payload ++ rest
  view-stated =
      rw drop-stated (drop_known 32 (serialize_aoe h) (payload ++ rest) (length-serialize_aoe h))

  rest-stated : drop (38 + length payload) stated ≡ rest
  rest-stated =
      ap (λ k. drop k stated) {x = 38 + length payload} (omega arith)
      ∙ sym (drop-drop (length payload) 38 stated)
      ∙ ap (drop (length payload)) (sym (drop-drop 32 6 stated))
      ∙ ap (drop (length payload)) view-stated
      ∙ drop-append payload rest

  pub round-stated :
      AoEFits h
      → 32 ≤ n
      → n < 2 ^ 32
      → n ≤ 32 + length payload + length rest
      → round stated ≡ (
          if 6 + 32 + h.length == 6 + n
          then parse_command (6 + n) h (payload ++ rest) (drop (6 + n) stated) (command_id h)
          else emit (6 + n) none (drop (6 + n) stated))
  round-stated fits big small whole =
      let r =
        round_whole stated n h
          (tcp_from_buffer-serialize_tcp (tcp_header n) (serialize_aoe h ++ (payload ++ rest))
            (omega arith))
          big (omega (arith, length-stated))
          (rw drop-stated (aoe_from_buffer-serialize_aoe h (payload ++ rest) fits)) in
      rw view-stated at r

-- The two headers of a frame are read back, and the view that follows them is the payload and what
-- comes after the frame.
pub round-frame_bytes :
    (h : AoEHeader) (payload rest : Bytes)
    → AoEFits h
    → h.length ≡ length payload
    → 32 + length payload < 2 ^ 32
    → round (frame_bytes h payload ++ rest)
      ≡ parse_command (38 + length payload) h (payload ++ rest) rest (command_id h)
unfolding frame_bytes
round-frame_bytes h payload rest fits len small =
    let n = 32 + length payload in
    let same : (6 + 32 + h.length == 6 + n) ≡ true = ground arith in
    let total : 6 + n ≡ 38 + length payload = omega arith in
    rw (
      append_assoc (serialize_tcp (tcp_header n)) (serialize_aoe h ++ payload) rest,
      append_assoc (serialize_aoe h) payload rest,
      round-stated h n payload rest fits (omega arith) small (omega arith),
      same,
      total,
      rest-stated h n payload rest,
    )

-- A buffer that is short of a whole frame, though it begins with its TCP header.
round_partial :
    (buf : Bytes) (n : ℕ)
    → tcp_from_buffer buf ≡ ok (tcp_header n)
    → 32 ≤ n
    → length buf < 6 + n
    → round buf ≡ stop
unfolding round
round_partial buf n tcp big few = elim (Bool-cases (ltb (length buf) 6)) [
  | inl short ↦ rw short
  | inr long ↦ rw (long, tcp, le→ltb n 32 big, lt→ltb (length buf) (6 + n) few)
]

pub round_few : (buf : Bytes) → length buf < 6 → round buf ≡ stop
unfolding round
round_few buf h = rw (lt→ltb (length buf) 6 h)

-- A proper prefix of a frame ends the loop: `from_wire` waits for the rest.
pub round_prefix :
    (h : AoEHeader) (payload p q : Bytes)
    → 32 + length payload < 2 ^ 32
    → p ++ q ≡ frame_bytes h payload
    → length p < 38 + length payload
    → round p ≡ stop
unfolding frame_bytes
round_prefix h payload p q small e few = elim (Bool-cases (ltb (length p) 6)) [
  | inl short ↦ round_few p (ltb→lt _ _ short)
  | inr long ↦
      let tcp = serialize_tcp (tcp_header (32 + length payload)) in
      let six : 6 ≤ length p = ground arith in
      let start : take 6 p ≡ tcp =
        sym (take-append_le 6 p q six)
        ∙ ap (take 6) e
        ∙ ap (λ k. take k (tcp ++ (serialize_aoe h ++ payload)))
            (sym (length-serialize_tcp (32 + length payload)))
        ∙ take-append tcp (serialize_aoe h ++ payload) in
      let shape : p ≡ tcp ++ drop 6 p =
        sym (take-append-drop 6 p) ∙ ap (λ t. t ++ drop 6 p) start in
      let read : tcp_from_buffer p ≡ ok (tcp_header (32 + length payload)) =
        ap tcp_from_buffer shape
        ∙ tcp_from_buffer-serialize_tcp (tcp_header (32 + length payload)) (drop 6 p)
            (omega arith) in
      round_partial p (32 + length payload) read (omega arith) (omega arith)
]
