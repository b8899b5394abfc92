-- ===== src/WebSocket/Bounds.antt =====
-- sockets/live/WebSocketLiveEndpoint.hpp: the lengths that headers give, against the bytes there are.
use medici.Prelude.{
  ℕ, suc, ◌+◌, ◌%◌, ◌^◌, ◌<◌, ◌≤◌, ◌≡◌, ◌↔◌, ap, sym, ◌∙◌, arith, Bool, List, [], ◌∷◌, ◌++◌, none,
  length, get_or, take, drop, All, append_assoc, length-take, take-append-drop,
}
use Prim.Native.Nat.{bit_and, bit_xor}
use medici.WebSocket.{WsOpCode, mask_from, client_frame, first_byte, client_length, payload_size}
use medici.WebSocket.Endpoint.{Ws, Side, client, server}
use medici.WebSocket.Receive.{
  Header, header, read_header, read_length, view, begin_frame, key_length, big_endian, without_mask,
  with_mask, frame_length,
}
use medici.Prelude.Bits.{low_bits}
use medici.WebSocket.Frames.{IsByte}

-- What a header that was read says.
record IsRead (h : Header) (available : ℕ) : Type 0 where
  fits : h.header_size + key_length h.key ≤ available
  small : h.header_size ≤ 10
  narrow : h.expected_frame_payload_length < 2 ^ 32

two_bytes : (bytes : List ℕ) → All IsByte bytes → big_endian 0 (take 2 bytes) < 65536
two_bytes [] h = omega arith
two_bytes (b ∷ []) h = omega arith
two_bytes (b ∷ c ∷ bytes) h = omega arith

All-drop_two : (bytes : List ℕ) → All IsByte bytes → All IsByte (drop 2 bytes)
All-drop_two [] h = tt
All-drop_two (b ∷ []) h = tt
All-drop_two (b ∷ c ∷ bytes) h = h.1.1

low_lt : (b : ℕ) → b < 256 → bit_and b 0x7f < 128
low_lt b h = omega (arith, low_bits b h)

read_length_bounds :
    (bytes : List ℕ)
    → All IsByte bytes
    → ((read_length bytes).0 < 2 ^ 32) × ((read_length bytes).1 ≤ 10) × (2 ≤ (read_length bytes).1)
unfolding read_length
read_length_bounds bytes h = ground (
  arith,
  two_bytes (drop 2 bytes) (All-drop_two bytes h),
  low_lt (get_or bytes 1 0) (second bytes h),
)
  where
    second : (l : List ℕ) → All IsByte l → get_or l 1 0 < 256
    second [] p = omega arith
    second (b ∷ []) p = omega arith
    second (b ∷ c ∷ l) p = omega arith

mask_IsRead :
    (bytes : List ℕ) (available : ℕ) (ls : ℕ × ℕ) (h : Header)
    → (ls.0 < 2 ^ 32) × (ls.1 ≤ 10)
    → with_mask bytes available ls ≡ header h
    → IsRead h available
mask_IsRead bytes available (n, size) h bounds e = ground (arith)

plain_IsRead :
    (side : Side) (available : ℕ) (ls : ℕ × ℕ) (h : Header)
    → (ls.0 < 2 ^ 32) × (ls.1 ≤ 10) × (ls.1 ≤ available)
    → without_mask side ls ≡ header h
    → IsRead h available
plain_IsRead server available (n, size) h bounds e = cc
plain_IsRead client available (n, size) h bounds e = ground (arith)

read_header-IsRead :
    (side : Side) (bytes : List ℕ) (available : ℕ) (h : Header)
    → All IsByte bytes
    → read_header side bytes available ≡ header h
    → IsRead h available
unfolding read_header
read_header-IsRead side bytes available h hb e =
    let b = read_length_bounds bytes hb in
    ground (
      arith,
      mask_IsRead bytes available (read_length bytes) h (b.0, b.1),
      plain_IsRead side available (read_length bytes) h,
    )

-- The payload of a frame whose header has been read is looked for outside the bytes that were read exactly
-- when the length that the header gives wraps at 2 ^ 32 together with the size of the header, and the length
-- of the frame that the code computes from it is not more than the bytes there are, so that it takes the
-- frame to be complete. Each of the values read is a byte, and there are fewer than 2 ^ 32.
pub view_outside :
    (side : Side) (bytes : List ℕ) (h : Header) (offset : ℕ) (ws : Ws)
    → All IsByte bytes
    → length bytes < 2 ^ 32
    → read_header side bytes (length bytes) ≡ header h
    → (view bytes (h.header_size + key_length h.key) (begin_frame h (length bytes) offset ws).2
        ≡ none)
      ↔ ((2 ^ 32 ≤ h.expected_frame_payload_length + h.header_size)
          × (frame_length h ≤ length bytes))
unfolding view
view_outside side bytes h offset ws hb fits e =
    let r = read_header-IsRead side bytes (length bytes) h hb e in ground (arith)

mask_from-append :
    (key xs ys : List ℕ) (i j : ℕ)
    → j ≡ i + length xs
    → mask_from key i (xs ++ ys) ≡ mask_from key i xs ++ mask_from key j ys
unfolding mask_from
mask_from-append key [] ys i j e = ap (λ (n : ℕ). mask_from key n ys) (omega arith)
mask_from-append key (x ∷ xs) ys i j e =
    ap (λ l. bit_xor x (get_or key (i % 4) 0) ∷ l)
      (mask_from-append key xs ys (suc i) j (omega arith))

-- The frame of a payload of any size is the one of its first bytes, as many as its length modulo 64 KiB,
-- with the other bytes loose behind it.
pub client_frame-cut :
    (key : List ℕ) (compressed : Bool) (op_code : WsOpCode) (payload : List ℕ)
    → client_frame key compressed op_code payload
      ≡ client_frame key compressed op_code (take (length payload % 2 ^ 16) payload)
        ++ mask_from key (length payload % 2 ^ 16) (drop (length payload % 2 ^ 16) payload)
unfolding client_frame
client_frame-cut key compressed op_code payload =
    let k = length payload % 2 ^ 16 in
    let first = first_byte compressed op_code in
    let front : length (take k payload) ≡ k = omega (arith, length-take k payload) in
    let size : payload_size (take k payload) ≡ k = omega (arith, front) in
    let rest = mask_from key k (drop k payload) in
    ap (λ p. first ∷ (client_length k ++ (key ++ mask_from key 0 p)))
      (sym (take-append-drop k payload))
    ∙ ap (λ m. first ∷ (client_length k ++ (key ++ m)))
        (mask_from-append key (take k payload) (drop k payload) 0 k (omega (arith, front)))
    ∙ ap (λ n. first ∷ (client_length n ++ (key ++ (mask_from key 0 (take k payload) ++ rest))))
        (sym size)
    ∙ ap (λ m. first ∷ (client_length (payload_size (take k payload)) ++ m))
        (sym (append_assoc key (mask_from key 0 (take k payload)) rest))
    ∙ ap (λ m. first ∷ m)
        (sym (
          append_assoc (client_length (payload_size (take k payload)))
            (key ++ mask_from key 0 (take k payload)) rest))
