-- ===== src/WebSocket/Sender.antt =====
-- sockets/live/WebSocketLiveEndpoint.hpp: the frames that a client puts on the wire.
use medici.Prelude.{
  ℕ, ◌<◌, ◌≡◌, refl, ap, ap₂, sym, ◌∙◌, Bool, true, false, ◌&&◌, List, [], ◌∷◌, ◌++◌, none, ok, err,
  Expected, length, append_assoc, append-nil, All, Bool-cases, inl, inr,
}
use medici.WebSocket.{WsOpCode, is_content, client_frame}
use medici.WebSocket.Endpoint.{
  Ws, Host, WsError, not_upgraded, deflate_failed, Side, client, then_ok, with_bytes,
  send_framed_payload, client_send_framed_payload, send_frame, send_masked, send_all, send_on,
}
use medici.WebSocket.Frames.{IsByte, key_of}
use medici.WebSocket.Wire.{Message, frame, frames, IsMessage}

-- A client whose socket takes every frame: `output` is what went to the socket. The other calls leave it
-- alone, and `key` is what the generator of masking keys draws.
pub record Sender {C : Type 0} (host : Host C) (deflate : List ℕ → List ℕ) (output : C → List ℕ)
    (key : C → ℕ × ℕ × ℕ × ℕ) (drawn : C → C) (put : List ℕ → C → C) (squeezed : List ℕ → C → C)
    (noted : List ℕ → WsOpCode → C → C) : Type 0 where
  pub is_client : host.side ≡ client
  pub draw :
      (c : C)
      → host.generate_masking_key c ≡ (key_of (key c).0 (key c).1 (key c).2 (key c).3, drawn c)
  pub key_IsByte : (c : C) → All IsByte (key_of (key c).0 (key c).1 (key c).2 (key c).3)
  pub send : (f : List ℕ) (ws : Ws) (c : C) → host.send f ws c ≡ (ok tt, ws, put f c)
  pub compress : (p : List ℕ) (c : C) → host.compress p c ≡ (ok (deflate p), squeezed p c)
  pub outgoing :
      (p : List ℕ) (op_code : WsOpCode) (t : ℕ) (ws : Ws) (c : C)
      → host.outgoing p op_code t ws c ≡ (ws, noted p op_code c)
  pub output-put : (f : List ℕ) (c : C) → output (put f c) ≡ output c ++ f
  pub output-drawn : (c : C) → output (drawn c) ≡ output c
  pub output-squeezed : (p : List ℕ) (c : C) → output (squeezed p c) ≡ output c
  pub output-noted :
      (p : List ℕ) (op_code : WsOpCode) (c : C) → output (noted p op_code c) ≡ output c

-- Text or binary content of bytes that is shorter than 64 KiB, also when it is deflated.
abbrev pub IsContent : (List ℕ → List ℕ) → WsOpCode × List ℕ → Type 0
IsContent deflate (op_code, payload) =
    (is_content op_code ≡ true)
    × All IsByte payload
    × All IsByte (deflate payload)
    × (length payload < 65536)
    × (length (deflate payload) < 65536)

abbrev pub contents : List Message → List (WsOpCode × List ℕ)
contents [] = []
contents (m ∷ ms) = (m.op_code, m.payload) ∷ contents ms

module _ {C : Type 0} (host : Host C) (deflate : List ℕ → List ℕ) (output : C → List ℕ)
    (key : C → ℕ × ℕ × ℕ × ℕ) (drawn : C → C) (put : List ℕ → C → C) (squeezed : List ℕ → C → C)
    (noted : List ℕ → WsOpCode → C → C)
    (sender : Sender host deflate output key drawn put squeezed noted) where
  -- The message that a payload becomes.
  abbrev message_of : Bool → WsOpCode → List ℕ → C → Message
  message_of compressed op_code payload c = record {
    op_code = op_code;
    compressed = compressed;
    payload = payload;
    key_0 = (key c).0;
    key_1 = (key c).1;
    key_2 = (key c).2;
    key_3 = (key c).3;
  }

  message_of-IsMessage :
      (compressed : Bool) (op_code : WsOpCode) (payload : List ℕ) (c : C)
      → IsContent deflate (op_code, payload)
      → IsMessage deflate (message_of compressed op_code payload c)
  message_of-IsMessage true op_code payload c (content, plain, packed, short, shorter) = record {
    content = content;
    key_IsByte = sender.key_IsByte c;
    wire_IsByte = packed;
    short = shorter;
  }
  message_of-IsMessage false op_code payload c (content, plain, packed, short, shorter) = record {
    content = content;
    key_IsByte = sender.key_IsByte c;
    wire_IsByte = plain;
    short = short;
  }

  -- A masked frame goes to the socket.
  masked_sent :
      (compressed : Bool) (bytes payload : List ℕ) (op_code : WsOpCode) (ws : Ws) (c : C)
      → send_masked host compressed bytes payload op_code none ws c ≡ (
        ok tt,
        ws,
        noted payload op_code (
            put
              (client_frame
                (key_of (key c).0 (key c).1 (key c).2 (key c).3)
                compressed
                op_code
                bytes)
              (drawn c)),
      )
  unfolding send_frame
  masked_sent compressed bytes payload op_code ws c =
      rw (sender.draw c) (rw sender.send (rw sender.outgoing))

  output-sent :
      (payload f : List ℕ) (op_code : WsOpCode) (c : C)
      → output (noted payload op_code (put f (drawn c))) ≡ output c ++ f
  output-sent payload f op_code c =
      sender.output-noted payload op_code (put f (drawn c))
      ∙ sender.output-put f (drawn c)
      ∙ ap (λ o. o ++ f) (sender.output-drawn c)

  branch :
      (b : Bool) (ws : Ws) (c : C) (op_code : WsOpCode) (payload : List ℕ)
      → (host.compression_active c && is_content op_code) ≡ b
      → client_send_framed_payload host op_code payload none ws c
        ≡ (elim b as (λ x. Expected WsError × Ws × C) [
          | false ↦ send_masked host false payload payload op_code none ws c
          | true ↦
              with_bytes
                (host.compress payload c)
                (λ e c1. (err deflate_failed, ws, c1))
                (λ bytes c1. send_masked host true bytes payload op_code none ws c1)
        ])
  unfolding client_send_framed_payload
  branch b ws c op_code payload e =
      ap
        (λ (t : Bool). elim t as (λ x. Expected WsError × Ws × C) [
          | false ↦ send_masked host false payload payload op_code none ws c
          | true ↦
              with_bytes (host.compress payload c) (λ e c1. (err deflate_failed, ws, c1))
                (λ bytes c1. send_masked host true bytes payload op_code none ws c1)
        ])
        e

  -- A send of content writes one frame, whose payload is deflated or as it is.
  send_one :
      (op_code : WsOpCode) (payload : List ℕ) (ws : Ws) (c : C)
      → ws.upgraded ≡ true
      → IsContent deflate (op_code, payload)
      → (m : Message) × (c' : C) × (send_framed_payload host op_code payload none ws c
          ≡ (ok tt, ws, c'))
        × (output c' ≡ output c ++ frame deflate m)
        × IsMessage deflate m
        × (m.op_code ≡ op_code)
        × (m.payload ≡ payload)
  unfolding send_framed_payload client_send_framed_payload
  send_one op_code payload ws c open_socket content =
      let on_client : send_framed_payload host op_code payload none ws c
          ≡ client_send_framed_payload host op_code payload none ws c =
        ap
          (λ (b : Bool). elim b as (λ x. Expected WsError × Ws × C) [
            | false ↦ (err not_upgraded, ws, c)
            | true ↦ send_on host host.side op_code payload none ws c
          ])
          open_socket
        ∙ ap (λ (w : Side). send_on host w op_code payload none ws c) sender.is_client in
      elim (Bool-cases (host.compression_active c)) [
        | inl active ↦
            let m = message_of true op_code payload (squeezed payload c) in
            (
              m,
              _,
              on_client
                  ∙ branch true ws c op_code payload (rw (active, content.0))
                  ∙ ap
                      (λ z.
                        with_bytes z (λ e c1. (err deflate_failed, ws, c1))
                          (λ bytes c1. send_masked host true bytes payload op_code none ws c1))
                      (sender.compress payload c)
                  ∙ masked_sent true (deflate payload) payload op_code ws (squeezed payload c),
              output-sent payload (frame deflate m) op_code (squeezed payload c)
                  ∙ ap (λ o. o ++ frame deflate m) (sender.output-squeezed payload c),
              message_of-IsMessage true op_code payload (squeezed payload c) content,
              refl,
              refl,
            )
        | inr idle ↦
            let m = message_of false op_code payload c in
            (
              m,
              _,
              on_client
                  ∙ branch false ws c op_code payload (rw (idle))
                  ∙ masked_sent false payload payload op_code ws c,
              output-sent payload (frame deflate m) op_code c,
              message_of-IsMessage false op_code payload c content,
              refl,
              refl,
            )
      ]

  -- All the frames, one behind the other.
  pub send_all-frames :
      (cs : List (WsOpCode × List ℕ)) (ws : Ws) (c : C)
      → ws.upgraded ≡ true
      → All (IsContent deflate) cs
      → (ms : List Message) × (c' : C) × (send_all host cs ws c ≡ (ok tt, ws, c'))
        × (output c' ≡ output c ++ frames deflate ms)
        × All (IsMessage deflate) ms
        × (contents ms ≡ cs)
  unfolding send_all
  send_all-frames [] ws c open_socket h = ([], c, refl, sym (append-nil (output c)), tt, refl)
  send_all-frames ((op_code, payload) ∷ cs) ws c open_socket (h, hs) =
      let one = send_one op_code payload ws c open_socket h in
      let rest = send_all-frames cs ws one.1 open_socket hs in
      (
        one.0 ∷ rest.0,
        rest.1,
        ap (λ z. then_ok z (send_all host cs)) one.2 ∙ rest.2,
        rest.3
            ∙ ap (λ o. o ++ frames deflate rest.0) one.3
            ∙ append_assoc (output c) (frame deflate one.0) (frames deflate rest.0),
        (one.4, rest.4),
        ap₂ (λ x xs. x ∷ xs) (ap₂ (λ o p. (o, p)) one.5 one.6) rest.5,
      )
