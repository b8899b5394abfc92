-- ===== src/WebSocket/Wire.antt =====
-- Messages as a client of sockets/live/WebSocketLiveEndpoint.hpp puts them on the wire, and the stages of an
-- endpoint that reads them.
use medici.Prelude.{
  ℕ, ◌+◌, ◌<◌, ◌≡◌, refl, sym, ap, ◌∙◌, arith, All, Bool, true, false, if◌then◌else◌, List, [], ◌∷◌,
  ◌++◌, append_assoc, none, some, length, length-append,
}
use Prim.Native.Nat.{bit_and}
use native.Mathlib.Nat.{mod-eq_of_lt}
use medici.WebSocket.{
  WsOpCode, text, binary, is_content, client_length, to_op_code, first_byte, mask_from,
  client_frame, payload_size,
}
use medici.WebSocket.Endpoint.{Ws}
use medici.WebSocket.Frames.{
  key_of, client_header, base_size, IsByte, length-client_header, length-mask,
}

-- A message with the key of its frame. `compressed` says that the payload is deflated on the wire.
pub record Message : Type 0 where
  pub op_code : WsOpCode
  pub compressed : Bool
  pub payload : List ℕ
  pub key_0 : ℕ
  pub key_1 : ℕ
  pub key_2 : ℕ
  pub key_3 : ℕ

abbrev pub key_bytes : Message → List ℕ
key_bytes m = key_of m.key_0 m.key_1 m.key_2 m.key_3

module _ (deflate : List ℕ → List ℕ) where
  abbrev pub wire : Message → List ℕ
  wire m = if m.compressed then deflate m.payload else m.payload

  abbrev pub masked : Message → List ℕ
  masked m = mask_from (key_bytes m) 0 (wire m)

  abbrev pub head : Message → List ℕ
  head m = client_header (first_byte m.compressed m.op_code) (length (wire m)) (key_bytes m)

  abbrev pub frame : Message → List ℕ
  frame m = client_frame (key_bytes m) m.compressed m.op_code (wire m)

  abbrev pub frames : List Message → List ℕ
  frames [] = []
  frames (m ∷ ms) = frame m ++ frames ms

  -- Text or binary content of bytes, shorter than 64 KiB.
  pub record IsMessage (m : Message) : Type 0 where
    pub content : is_content m.op_code ≡ true
    pub key_IsByte : All IsByte (key_bytes m)
    pub wire_IsByte : All IsByte (wire m)
    pub short : length (wire m) < 65536

  pub frame-head : (m : Message) → IsMessage m → frame m ≡ head m ++ masked m
  unfolding client_frame
  frame-head m h =
      let size : payload_size (wire m) ≡ length (wire m) = mod-eq_of_lt h.short in
      let first = first_byte m.compressed m.op_code in
      ap (λ (n : ℕ). first ∷ (client_length n ++ (key_bytes m ++ masked m))) size
      ∙ ap (λ (t : List ℕ). first ∷ t)
          (sym (append_assoc (client_length (length (wire m))) (key_bytes m) (masked m)))

  pub length-head : (m : Message) → IsMessage m → length (head m) ≡ base_size (length (wire m)) + 4
  length-head m h =
      length-client_header (first_byte m.compressed m.op_code) (length (wire m)) m.key_0 m.key_1
        m.key_2 m.key_3 h.short

  pub length-frame :
      (m : Message)
      → IsMessage m
      → length (frame m) ≡ base_size (length (wire m)) + 4 + length (wire m)
  length-frame m h =
      ap length (frame-head m h)
      ∙ omega (
        arith,
        length-append (head m) (masked m),
        length-head m h,
        length-mask (key_bytes m) (wire m) 0,
      )

-- The bits of the first byte of a frame with content.
pub record FirstBits (op_code : WsOpCode) (compressed : Bool) (first : ℕ) : Type 0 where
  pub fin : bit_and first 0x80 ≡ 128
  pub reserved : bit_and first 0x30 ≡ 0
  pub rsv1 : bit_and first 0x40 ≡ (if compressed then 64 else 0)
  pub op : to_op_code (bit_and first 0x0f) ≡ op_code

pub first_bits :
    (op_code : WsOpCode) (compressed : Bool)
    → is_content op_code ≡ true
    → FirstBits op_code compressed (first_byte compressed op_code)
unfolding first_byte to_op_code
first_bits text false h = record { fin = refl; reserved = refl; rsv1 = refl; op = refl }
first_bits text true h = record { fin = refl; reserved = refl; rsv1 = refl; op = refl }
first_bits binary false h = record { fin = refl; reserved = refl; rsv1 = refl; op = refl }
first_bits binary true h = record { fin = refl; reserved = refl; rsv1 = refl; op = refl }
first_bits _ c h = cc

-- An endpoint between two messages, and one that has read the header of a message.
pub record Idle (ws : Ws) : Type 0 where
  pub pending : ws.pending_ws_frame_content ≡ 0
  pub first_op : ws.first_op ≡ none
  pub kept : ws.continuation_buffer ≡ []

abbrev pub opened : Message → Ws → Ws
opened m ws = record ws {
  masking_key = some (key_bytes m);
  final_frame = true;
  first_op = some m.op_code;
  compressed_message = m.compressed;
}
