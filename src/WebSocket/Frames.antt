-- ===== src/WebSocket/Frames.antt =====
-- sockets/live/WebSocketLiveEndpoint.hpp: the header of a client's frame, as the server reads it.
use medici.Prelude.{
  ℕ, zero, suc, ◌+◌, ◌/◌, ◌%◌, ◌^◌, ◌<◌, ◌≤◌, ◌≡◌, refl, ap, ap₂, All, arith, leb, if◌then◌else◌,
  List, [], ◌∷◌, ◌++◌, some, length, get_or,
}
use medici.Prelude.Bits.{low_bits, top_bit, set_top_bit, whole_byte, bit_xor_twice}
use native.Mathlib.Decide.{dec_lt}
use medici.WebSocket.{client_length, mask_from}
use medici.WebSocket.Endpoint.{Side}
use medici.WebSocket.Receive.{incomplete, header, read_header}

abbrev pub key_of : ℕ → ℕ → ℕ → ℕ → List ℕ
key_of a b c d = a ∷ b ∷ c ∷ d ∷ []

-- The header of a client's frame with a payload of `n` bytes.
abbrev pub client_header : ℕ → ℕ → List ℕ → List ℕ
client_header first n key = first ∷ (client_length n ++ key)

short_length : (n : ℕ) → n ≤ 125 → client_length n ≡ (n + 128) ∷ []
unfolding client_length
short_length n h = ground (arith, set_top_bit n)

long_length : (n : ℕ) → 125 < n → n < 65536 → client_length n ≡ 254 ∷ n / 256 ∷ n % 256 ∷ []
unfolding client_length
long_length n lo hi = ground (arith, whole_byte n, whole_byte (n / 2 ^ 8))

abbrev pub IsByte : ℕ → Type 0
IsByte b = b < 256

key-IsByte : (a b c d j : ℕ) → All IsByte (key_of a b c d) → get_or (key_of a b c d) j 0 < 256
key-IsByte a b c d zero h = h.0
key-IsByte a b c d (suc zero) h = omega arith
key-IsByte a b c d (suc (suc zero)) h = omega arith
key-IsByte a b c d (suc (suc (suc zero))) h = omega arith
key-IsByte a b c d (suc (suc (suc (suc j)))) h = omega arith

-- The size of the header without the key, and its second byte.
abbrev pub base_size : ℕ → ℕ
base_size n = if leb n 125 then 2 else 4

abbrev length_byte : ℕ → ℕ
length_byte n = if leb n 125 then n + 128 else 254

pub length-client_header :
    (first n a b c d : ℕ)
    → n < 65536
    → length (client_header first n (key_of a b c d)) ≡ base_size n + 4
length-client_header first n a b c d h = elim (dec_lt 125 n) [
  | yes long ↦ rw (long_length n long h) (ground arith)
  | no short ↦ rw (short_length n (omega arith)) (ground arith)
]

-- The whole header is read, whatever follows.
pub read-client_header :
    (side : Side) (first n a b c d more_bytes : ℕ) (more : List ℕ)
    → n < 65536
    → read_header side
        (client_header first n (key_of a b c d) ++ more)
        (base_size n + 4 + more_bytes)
      ≡ header (record {
        expected_frame_payload_length = n;
        header_size = base_size n;
        key = some (key_of a b c d);
      })
unfolding read_header
read-client_header side first n a b c d more_bytes more h = elim (dec_lt 125 n) [
  | yes long ↦ rw (long_length n long h) (ground arith)
  | no short ↦
      rw (short_length n (omega arith)) (ground (arith, low_bits (n + 128), top_bit (n + 128)))
]

-- A part of the header is not enough.
pub read-incomplete :
    (side : Side) (frame : List ℕ) (n available : ℕ)
    → n < 65536
    → available < base_size n + 4
    → (1 < available → get_or frame 1 0 ≡ length_byte n)
    → read_header side frame available ≡ incomplete
unfolding read_header
read-incomplete side frame n available h few second = elim (dec_lt 1 available) [
  | no empty ↦ ground arith
  | yes two ↦ rw (second two) (ground (arith, low_bits (n + 128), top_bit (n + 128)))
]

pub second-client_header :
    (first n a b c d : ℕ) (more : List ℕ)
    → n < 65536
    → get_or (client_header first n (key_of a b c d) ++ more) 1 0 ≡ length_byte n
second-client_header first n a b c d more h = elim (dec_lt 125 n) [
  | yes long ↦ rw (long_length n long h) (ground arith)
  | no short ↦ rw (short_length n (omega arith)) (ground arith)
]

-- Unmasking is masking.
pub mask-mask :
    (a b c d i : ℕ) (payload : List ℕ)
    → All IsByte (key_of a b c d)
    → All IsByte payload
    → mask_from (key_of a b c d) i (mask_from (key_of a b c d) i payload) ≡ payload
unfolding mask_from
mask-mask a b c d i [] hk hp = refl
mask-mask a b c d i (x ∷ payload) hk (hx, hp) =
    ap₂ (λ (y : ℕ) (ys : List ℕ). y ∷ ys) (bit_xor_twice x _ hx (key_byte (i % 4)))
      (mask-mask a b c d (suc i) payload hk hp)
  where
    key_byte : (j : ℕ) → get_or (key_of a b c d) j 0 < 256
    key_byte j = key-IsByte a b c d j hk

pub length-mask : (key payload : List ℕ) (i : ℕ) → length (mask_from key i payload) ≡ length payload
unfolding mask_from
length-mask key [] i = refl
length-mask key (x ∷ payload) i = ap suc (length-mask key payload (suc i))
