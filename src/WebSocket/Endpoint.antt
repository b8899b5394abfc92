-- ===== src/WebSocket/Endpoint.antt =====
-- sockets/live/WebSocketLiveEndpoint.hpp: the state of an endpoint, what is sent with it and how it is
-- reset. With it, of sockets/live/EndpointBase.hpp, the content that waits for the next read.
--
-- `Host` is what the endpoint calls: the HTTP endpoint that it derives from, zlib and the handlers of the
-- application. A handler may call the endpoint back, so it gets its state and returns it.
use medici.Prelude.{
  ℕ, Bool, true, false, ◌&&◌, if◌then◌else◌, List, [], ◌∷◌, Option, none, some, Result, ok, err,
  Expected, length, ltb,
}
use medici.WebSocket.{WsOpCode, is_content, client_frame, server_frame}

pub data WsError : Type 0 where
  not_upgraded deflate_failed inflate_failed reserved_bits missing_key buffer_overrun : WsError
  -- An error of what the endpoint calls.
  failed : ℕ → WsError

pub data Reason : Type 0 where
  closed_by_remote unexpected_continuation unknown_frame : Reason
  -- What the HTTP endpoint reports.
  dropped : ℕ → Reason

pub data Side : Type 0 where
  client server : Side

-- `resetWebsocketState` leaves `first_op` out.
pub record Ws : Type 0 where
  pub upgraded : Bool
  pub frame_read_time : Option ℕ
  pub masking_key : Option (List ℕ)
  pub continuation_buffer : List ℕ
  pub first_op : Option WsOpCode
  pub pending_ws_frame_content : ℕ
  pub final_frame : Bool
  pub compressed_message : Bool
  -- `_inboundBuffer.size()`, and the content before `_inboundWriteOffset`.
  pub inbound_size : ℕ
  pub prepended : List ℕ

-- The action that a send with a callback leaves to be run when the frame is sent.
pub record Finish : Type 0 where
  pub payload : List ℕ
  pub op_code : WsOpCode
  pub callback : Option ℕ

module _ (S : Type 0) where
  abbrev pub M : Type 0 → Type 0
  M X = Ws → S → X × Ws × S

  pub record Host : Type 0 where
    pub side : Side
    pub incoming : List ℕ → WsOpCode → Option ℕ → Ws → S → Expected WsError × Ws × S
    pub outgoing : List ℕ → WsOpCode → ℕ → Ws → S → Ws × S
    pub call : ℕ → Ws → S → Expected WsError × Ws × S
    pub clock : S → ℕ
    pub send : List ℕ → Ws → S → Expected WsError × Ws × S
    pub send_async : List ℕ → Finish → Ws → S → Expected WsError × Ws × S
    -- `BaseSocketEndpointT::onDisconnected`.
    pub disconnected : Reason → Ws → S → Expected WsError × Ws × S
    -- `resetConnection`, `closeCompressionContext` and `resetHttpState`.
    pub reset_base : S → S
    pub generate_masking_key : S → List ℕ × S
    pub compression_active : S → Bool
    -- `compressPayload` of the client, `compressZStream` of the server.
    pub compress : List ℕ → S → Result WsError (List ℕ) × S
    pub reset_compression : S → Expected WsError × S
    pub decompress : List ℕ → S → Result WsError (List ℕ) × S
    pub reset_decompression : S → Expected WsError × S

-- `if (!result) return result;`.
abbrev pub then_ok :
    {S X : Type 0}
    → Expected WsError × X × S
    → (X → S → Expected WsError × X × S)
    → Expected WsError × X × S
then_ok (ok u, x, s) f = f x s
then_ok (err e, x, s) f = (err e, x, s)

abbrev pub sent : {S : Type 0} → Ws × S → Expected WsError × Ws × S
sent (ws, s) = (ok tt, ws, s)

abbrev pub reset_ok : {S X : Type 0} → Expected WsError × S → (WsError → S → X) → (S → X) → X
reset_ok (ok u, s) no_result f = f s
reset_ok (err e, s) no_result f = no_result e s

-- Behind a step on what the endpoint calls alone.
abbrev pub with_bytes :
    {S X : Type 0} → Result WsError (List ℕ) × S → (WsError → S → X) → (List ℕ → S → X) → X
with_bytes (ok bytes, s) no_result f = f bytes s
with_bytes (err e, s) no_result f = no_result e s

module _ {S : Type 0} (host : Host S) where
  -- The end of both functions that send: with a callback the frame is queued.
  unfoldable pub send_frame : List ℕ → List ℕ → WsOpCode → Option ℕ → M S (Expected WsError)
  send_frame frame uncompressed op_code (some cb) ws s =
      host.send_async frame
        (record { payload = uncompressed; op_code = op_code; callback = some cb }) ws s
  send_frame frame uncompressed op_code none ws s =
      then_ok (host.send frame ws s)
        λ ws1 s1. sent (host.outgoing uncompressed op_code (host.clock s1) ws1 s1)

  -- The function object that `sendAsync` is given.
  unfoldable pub run_finish : Finish → M S (Expected WsError)
  run_finish f ws s =
      let (ws1, s1) = host.outgoing f.payload f.op_code (host.clock s) ws s in
      elim f.callback [ none ↦ (ok tt, ws1, s1) | some cb ↦ host.call cb ws1 s1 ]

  -- The client's frame, with a new masking key.
  abbrev pub send_masked : Bool → List ℕ → List ℕ → WsOpCode → Option ℕ → M S (Expected WsError)
  send_masked compressed payload uncompressed op_code cb ws s =
      let (key, s1) = host.generate_masking_key s in
      send_frame (client_frame key compressed op_code payload) uncompressed op_code cb ws s1

  unfoldable pub client_send_framed_payload : WsOpCode → List ℕ → Option ℕ → M S (Expected WsError)
  unfolding send_frame
  client_send_framed_payload op_code payload cb ws s =
      elim (host.compression_active s && is_content op_code) [
        | false ↦ send_masked false payload payload op_code cb ws s
        | true ↦
            with_bytes (host.compress payload s) (λ e s1. (err deflate_failed, ws, s1))
              (λ bytes s1. send_masked true bytes payload op_code cb ws s1)
      ]

  -- The context is reset behind each message.
  abbrev pub send_deflated : List ℕ → List ℕ → WsOpCode → Option ℕ → M S (Expected WsError)
  send_deflated bytes payload op_code cb ws s =
      reset_ok (host.reset_compression s) (λ e s1. (err e, ws, s1))
        (λ s1. send_frame (server_frame true op_code bytes) payload op_code cb ws s1)

  unfoldable pub server_send_framed_payload : WsOpCode → List ℕ → Option ℕ → M S (Expected WsError)
  unfolding send_frame
  server_send_framed_payload op_code payload cb ws s =
      elim (host.compression_active s && is_content op_code) [
        | false ↦ send_frame (server_frame false op_code payload) payload op_code cb ws s
        | true ↦
            with_bytes (host.compress payload s) (λ e s1. (err deflate_failed, ws, s1))
              (λ bytes s1. send_deflated bytes payload op_code cb ws s1)
      ]

  abbrev pub send_on : Side → WsOpCode → List ℕ → Option ℕ → M S (Expected WsError)
  send_on server = server_send_framed_payload
  send_on client = client_send_framed_payload

  unfoldable pub send_framed_payload : WsOpCode → List ℕ → Option ℕ → M S (Expected WsError)
  unfolding client_send_framed_payload server_send_framed_payload
  send_framed_payload op_code payload cb ws s = elim ws.upgraded [
    | false ↦ (err not_upgraded, ws, s)
    | true ↦ send_on host.side op_code payload cb ws s
  ]

  unfoldable pub reset_websocket_state : Ws → S → Ws × S
  reset_websocket_state ws s = (
    record ws {
      upgraded = false;
      frame_read_time = none;
      masking_key = none;
      continuation_buffer = [];
      pending_ws_frame_content = 0;
      final_frame = false;
      compressed_message = false;
    },
    host.reset_base s,
  )

  unfoldable pub on_disconnected : Reason → M S (Expected WsError)
  unfolding reset_websocket_state
  on_disconnected reason ws s =
      let (ws1, s1) = reset_websocket_state ws s in host.disconnected reason ws1 s1

  -- Several payloads sent one after the other, with no callback.
  unfoldable pub send_all : List (WsOpCode × List ℕ) → M S (Expected WsError)
  unfolding send_framed_payload
  send_all [] ws s = (ok tt, ws, s)
  send_all ((op_code, payload) ∷ more) ws s =
      then_ok (send_framed_payload op_code payload none ws s) (send_all more)

-- `prependPartialContent`. On an overrun only the offset has changed, and what stands before it then is
-- not known; the model keeps the content.
unfoldable pub prepend_partial_content : List ℕ → Ws → Expected WsError × Ws
prepend_partial_content content ws = (
  if ltb ws.inbound_size (length content) then err buffer_overrun else ok tt,
  record ws { prepended = content },
)
