-- ===== src/WebSocket/Delivery.antt =====
-- sockets/live/WebSocketLiveEndpoint.hpp: the dispatch of a message to an application whose handler takes
-- every message and leaves the endpoint alone.
use medici.Prelude.{
  ℕ, ◌≡◌, refl, ap, ap₂, ◌∙◌, arith, Bool, true, false, if◌then◌else◌, List, [], Option, none, some,
  ok,
}
use medici.WebSocket.{WsOpCode}
use medici.WebSocket.Endpoint.{Ws, Host}
use medici.WebSocket.Receive.{
  Step, finished, again, returned, at_end, after_dispatch, deliver, inflate, unmask, unmask_kept,
  dispatch_content,
}
use medici.WebSocket.Frames.{mask-mask}
use medici.WebSocket.Wire.{Message, key_bytes, wire, masked, IsMessage}

-- What the application does with a message, and what the inflating of a payload leaves of its stream
-- until the stream is reset.
pub record Quiet {S : Type 0} (host : Host S) (deflate : List ℕ → List ℕ)
    (got : WsOpCode → List ℕ → S → S) (spent : List ℕ → S → S) : Type 0 where
  pub incoming :
      (payload : List ℕ) (op_code : WsOpCode) (t : Option ℕ) (ws : Ws) (s : S)
      → host.incoming payload op_code t ws s ≡ (ok tt, ws, got op_code payload s)
  pub decompress :
      (payload : List ℕ) (s : S)
      → host.decompress (deflate payload) s ≡ (ok payload, spent payload s)
  pub reset_decompression :
      (payload : List ℕ) (s : S) → host.reset_decompression (spent payload s) ≡ (ok tt, s)

-- The state behind a message that was dispatched.
abbrev pub delivered : Option ℕ → Ws → Ws
delivered t ws = record ws {
  masking_key = none;
  first_op = none;
  continuation_buffer = [];
  compressed_message = false;
  frame_read_time = t;
}

module _ {S : Type 0} (host : Host S) (deflate : List ℕ → List ℕ) (got : WsOpCode → List ℕ → S → S)
    (spent : List ℕ → S → S) (quiet : Quiet host deflate got spent) where
  -- The cycle ends the loop where the buffer ends.
  abbrev pub next_step : Bool → ℕ → Ws → S → Step × Ws × S
  next_step true next ws s = (finished (returned (ok tt)), delivered none ws, s)
  next_step false next ws s = (again next, delivered (some (host.clock s)) ws, s)

  after_ok :
      (b : Bool) (next bytes_read : ℕ) (ws : Ws) (s : S)
      → at_end next bytes_read ≡ b
      → ws.masking_key ≡ none
      → after_dispatch host bytes_read next (ok tt, ws, s) ≡ next_step b next ws s
  after_ok true next bytes_read ws s e unmasked = rw e (ground (arith, unmasked))
  after_ok false next bytes_read ws s e unmasked = rw e (ground (arith, unmasked))

  deliver_lem :
      (b : Bool) (payload : List ℕ) (op_code : WsOpCode) (next bytes_read : ℕ) (ws : Ws) (s : S)
      → at_end next bytes_read ≡ b
      → ws.masking_key ≡ none
      → deliver host bytes_read payload op_code next ws s
        ≡ next_step b next ws (got op_code payload s)
  unfolding deliver
  deliver_lem b payload op_code next bytes_read ws s e unmasked =
      ap (λ z. after_dispatch host bytes_read next z)
        (quiet.incoming payload op_code ws.frame_read_time ws s)
      ∙ after_ok b next bytes_read ws (got op_code payload s) e unmasked

  inflate_lem :
      (compressed b : Bool) (payload : List ℕ) (op_code : WsOpCode) (next bytes_read : ℕ) (ws : Ws)
      (s : S)
      → at_end next bytes_read ≡ b
      → ws.masking_key ≡ none
      → inflate host bytes_read compressed
          (if compressed then deflate payload else payload)
          op_code
          next
          ws
          s
        ≡ next_step b next ws (got op_code payload s)
  inflate_lem false b payload op_code next bytes_read ws s e unmasked =
      deliver_lem b payload op_code next bytes_read ws s e unmasked
  inflate_lem true b payload op_code next bytes_read ws s e unmasked =
      rw (quiet.decompress payload s) (
        rw (quiet.reset_decompression payload s)
          (deliver_lem b payload op_code next bytes_read ws s e unmasked))

  same_step :
      (b : Bool) (next : ℕ) (kept : List ℕ) (ws : Ws) (s : S)
      → next_step b next (record ws { masking_key = none; continuation_buffer = kept }) s
        ≡ next_step b next ws s
  same_step true next kept ws s = refl
  same_step false next kept ws s = refl

  -- The message that a masked frame carries reaches the application as it was.
  pub dispatch-masked :
      (m : Message) (b : Bool) (next bytes_read : ℕ) (ws : Ws) (s : S)
      → IsMessage deflate m
      → at_end next bytes_read ≡ b
      → ws.masking_key ≡ some (key_bytes m)
      → ws.compressed_message ≡ m.compressed
      → dispatch_content host bytes_read (masked deflate m) m.op_code next ws s
        ≡ next_step b next ws (got m.op_code m.payload s)
  unfolding dispatch_content
  dispatch-masked m b next bytes_read ws s im e key flag =
      let plain : unmask ws.masking_key (masked deflate m) ≡ wire deflate m =
        ap (λ k. unmask k (masked deflate m)) key
        ∙ mask-mask m.key_0 m.key_1 m.key_2 m.key_3 0 (wire deflate m) im.key_IsByte
            im.wire_IsByte in
      let ws1 : Ws = record ws {
        masking_key = none;
        continuation_buffer =
            unmask_kept ws.continuation_buffer (unmask ws.masking_key (masked deflate m));
      } in
      ap₂ (λ c p. inflate host bytes_read c p m.op_code next ws1 s) flag plain
      ∙ inflate_lem m.compressed b m.payload m.op_code next bytes_read ws1 s e refl
      ∙ same_step b next ws1.continuation_buffer ws (got m.op_code m.payload s)
