-- ===== src/WebSocket/Waiting.antt =====
-- sockets/live/WebSocketLiveEndpoint.hpp: where an endpoint stands between two reads of a stream of frames.
use medici.Prelude.{
  ℕ, ◌≡◌, ◌≢◌, ◌⊎◌, inl, inr, refl, sym, true, List, [], ◌∷◌, ◌++◌, some, ok, length,
}
use medici.WebSocket.{WsOpCode}
use medici.WebSocket.Endpoint.{Ws}
use medici.WebSocket.Receive.{Outcome, returned}
use medici.WebSocket.Wire.{Message, key_bytes, masked, head, frames, Idle}

-- Two ways to cut one list: the first cut comes before the second, or not.
pub split_append :
    (a b c d : List ℕ)
    → a ++ b ≡ c ++ d
    → ((x : List ℕ) × (x ≢ []) × (c ≡ a ++ x) × (b ≡ x ++ d))
      ⊎ ((r : List ℕ) × (a ≡ c ++ r) × (d ≡ r ++ b))
split_append a b [] d e = inr (a, refl, sym e)
split_append [] b (y ∷ c) d e = inl (y ∷ c, (λ p. cc), refl, e)
split_append (x ∷ a) b (y ∷ c) d e =
    let same : x ≡ y = cc in
    let rest : a ++ b ≡ c ++ d = cc in
    elim (split_append a b c d rest) [
      | inl (z, some_z, p, q) ↦ inl (z, some_z, cc, q)
      | inr (r, p, q) ↦ inr (r, cc, q)
    ]

module _ (deflate : List ℕ → List ℕ) (ws : Ws) (messages : List Message) (stream : List ℕ) where
  -- The messages and the bytes that are still to come: at the start of a frame, in its header, whose front
  -- part waits for the next read, or in its payload.
  pub data Waiting : Type 0 where
    at_start : Idle ws → ws.prepended ≡ [] → stream ≡ frames deflate messages → Waiting
    in_header :
        (m : Message) (ms : List Message) (left : List ℕ)
        → messages ≡ m ∷ ms
        → Idle ws
        → head deflate m ≡ ws.prepended ++ left
        → left ≢ []
        → stream ≡ left ++ (masked deflate m ++ frames deflate ms)
        → Waiting
    in_payload :
        (m : Message) (ms : List Message) (left : List ℕ)
        → messages ≡ m ∷ ms
        → ws.pending_ws_frame_content ≡ length left
        → left ≢ []
        → masked deflate m ≡ ws.continuation_buffer ++ left
        → stream ≡ left ++ frames deflate ms
        → ws.first_op ≡ some m.op_code
        → ws.masking_key ≡ some (key_bytes m)
        → ws.compressed_message ≡ m.compressed
        → ws.final_frame ≡ true
        → ws.prepended ≡ []
        → Waiting

-- What an application has when it was given messages.
abbrev pub gather : {S : Type 0} → (WsOpCode → List ℕ → S → S) → List Message → S → S
gather got [] s = s
gather got (m ∷ ms) s = gather got ms (got m.op_code m.payload s)

-- A read that ended well: the messages `done` were handed over, and `left` are still to come.
pub record Progress {S : Type 0} (deflate : List ℕ → List ℕ) (got : WsOpCode → List ℕ → S → S)
    (room : ℕ) (messages : List Message) (stream : List ℕ) (s : S) (result : Outcome × Ws × S)
    : Type 0 where
  pub done : List Message
  pub left : List Message
  pub after : Ws
  pub all : messages ≡ done ++ left
  pub ended : result ≡ (returned (ok tt), after, gather got done s)
  pub waiting : Waiting deflate after left stream
  pub same_room : after.inbound_size ≡ room
