-- ===== src/WebSocket/Session.antt =====
-- sockets/live/WebSocketLiveEndpoint.hpp: what a client sends is what the server's application gets.
use medici.Prelude.{
  ℕ, ◌+◌, ◌^◌, ◌<◌, ◌≤◌, ◌≡◌, ◌≢◌, refl, ap, sym, subst, ◌∙◌, arith, true, List, [], ◌∷◌, ◌++◌, ok,
  length, All, length-append,
}
use medici.WebSocket.{WsOpCode}
use medici.WebSocket.Endpoint.{Ws, Host, send_all}
use medici.WebSocket.Receive.{returned, on_payload_ready, read_all, read_then}
use medici.WebSocket.Wire.{Message, frame, frames, IsMessage, Idle, length-frame}
use medici.WebSocket.Delivery.{Quiet}
use medici.WebSocket.Waiting.{Waiting, at_start, in_header, in_payload, gather, Progress}
use medici.WebSocket.Sender.{Sender, IsContent, contents, send_all-frames}
use medici.WebSocket.Delivered.{ready-Progress}

abbrev pub joined : List (ℕ × List ℕ) → List ℕ
joined [] = []
joined ((t, c) ∷ chunks) = c ++ joined chunks

-- A read that `read` has given some bytes, fewer than 4 GiB.
abbrev pub IsChunk : ℕ × List ℕ → Type 0
IsChunk (t, c) = (c ≢ []) × (length c + 8 < 2 ^ 32)

gather-append :
    {S : Type 0} (got : WsOpCode → List ℕ → S → S) (ms ns : List Message) (s : S)
    → gather got ns (gather got ms s) ≡ gather got (ms ++ ns) s
gather-append got [] ns s = refl
gather-append got (m ∷ ms) ns s = gather-append got ms ns (got m.op_code m.payload s)

All-drop :
    (deflate : List ℕ → List ℕ) (ms ns : List Message)
    → All (IsMessage deflate) (ms ++ ns)
    → All (IsMessage deflate) ns
All-drop deflate [] ns h = h
All-drop deflate (m ∷ ms) ns h = All-drop deflate ms ns h.1

-- With no byte to come there is no message to come, and the endpoint stands between two messages.
none_left :
    (deflate : List ℕ → List ℕ) (ws : Ws) (messages : List Message)
    → All (IsMessage deflate) messages
    → Waiting deflate ws messages []
    → (messages ≡ []) × Idle ws
none_left deflate ws [] im (at_start idle clear bytes) = (refl, idle)
none_left deflate ws (m ∷ ms) im (at_start idle clear bytes) = absurd (
    omega (
      arith,
      ap length bytes,
      length-append (frame deflate m) (frames deflate ms),
      length-frame deflate m im.0,
    ))
none_left deflate ws messages im (in_header m ms [] same idle front some_left bytes) =
    absurd (some_left refl)
none_left deflate ws messages im (in_header m ms (x ∷ left) same idle front some_left bytes) = cc
none_left deflate ws messages im
      (in_payload m ms [] same missing some_left kept bytes op key flag final clear) =
    absurd (some_left refl)
none_left deflate ws messages im
      (in_payload m ms (x ∷ left) same missing some_left kept bytes op key flag final clear) =
    cc

module _ {S : Type 0} (host : Host S) (deflate : List ℕ → List ℕ) (got : WsOpCode → List ℕ → S → S)
    (spent : List ℕ → S → S) (quiet : Quiet host deflate got spent) where
  read_waiting :
      (chunks : List (ℕ × List ℕ)) (messages : List Message) (ws : Ws) (s : S)
      → All (IsMessage deflate) messages
      → All IsChunk chunks
      → 8 ≤ ws.inbound_size
      → Waiting deflate ws messages (joined chunks)
      → (ws' : Ws) × (read_all host chunks ws s ≡ (returned (ok tt), ws', gather got messages s))
        × Idle ws'
  unfolding read_all
  read_waiting [] messages ws s im ic room w =
      let (none_more, idle) = none_left deflate ws messages im w in
      (ws, ap (λ l. (returned (ok tt), ws, gather got l s)) (sym none_more), idle)
  read_waiting ((t, c) ∷ chunks) messages ws s im ((some_c, fits), ic) room w =
      let p : Progress deflate got ws.inbound_size messages (joined chunks) s
          (on_payload_ready host t c ws s) =
        ready-Progress host deflate got spent quiet messages t c (joined chunks) ws s im room some_c
          fits w in
      let rest =
        read_waiting chunks p.left p.after (gather got p.done s)
          (All-drop deflate p.done p.left (subst (λ l. All (IsMessage deflate) l) p.all im)) ic
          (omega (arith, p.same_room)) p.waiting in
      (
        rest.0,
        ap (λ z. read_then host (read_all host chunks) z) p.ended
            ∙ rest.1
            ∙ ap (λ z. (returned (ok tt), rest.0, z))
                (gather-append got p.done p.left s ∙ ap (λ l. gather got l s) (sym p.all)),
        rest.2,
      )

  -- The frames of the text and binary messages of a client, cut into any pieces, are read without error:
  -- the application is given every message once, in order and as it was sent, and the endpoint is between
  -- two messages again. The payload of a frame is shorter than 64 KiB, the inbound buffer has 8 bytes at
  -- least, and the handler of the application takes every message and leaves the endpoint alone. What zlib
  -- deflates it inflates again, when its stream is reset behind each message.
  pub read_all-frames :
      (messages : List Message) (chunks : List (ℕ × List ℕ)) (ws : Ws) (s : S)
      → All (IsMessage deflate) messages
      → All IsChunk chunks
      → joined chunks ≡ frames deflate messages
      → Idle ws
      → ws.prepended ≡ []
      → 8 ≤ ws.inbound_size
      → (ws' : Ws) × (read_all host chunks ws s ≡ (returned (ok tt), ws', gather got messages s))
        × Idle ws'
  read_all-frames messages chunks ws s im ic bytes idle clear room =
      read_waiting chunks messages ws s im ic room (at_start idle clear bytes)

-- What an application has when it was given contents, in order.
unfoldable pub hand : {S : Type 0} → (WsOpCode → List ℕ → S → S) → List (WsOpCode × List ℕ) → S → S
hand got [] s = s
hand got ((op_code, payload) ∷ cs) s = hand got cs (got op_code payload s)

gather-contents :
    {S : Type 0} (got : WsOpCode → List ℕ → S → S) (ms : List Message) (s : S)
    → gather got ms s ≡ hand got (contents ms) s
unfolding hand
gather-contents got [] s = refl
gather-contents got (m ∷ ms) s = gather-contents got ms (got m.op_code m.payload s)

-- A client whose socket takes every frame sends texts and binaries: every send succeeds, and however the
-- bytes on the wire are cut into reads, the server reads them without error and its application is given
-- every message once, in order and as it was sent. The payloads, also deflated, are bytes and shorter than
-- 64 KiB; the server is between two messages, its inbound buffer has 8 bytes at least, and the handler of
-- its application takes every message and leaves the endpoint alone. What zlib deflates it inflates again
-- when its stream is reset behind each message.
pub send_all-read_all :
    {C S : Type 0} (host : Host C) (deflate : List ℕ → List ℕ) (output : C → List ℕ)
    (key : C → ℕ × ℕ × ℕ × ℕ) (drawn : C → C) (put : List ℕ → C → C) (squeezed : List ℕ → C → C)
    (noted : List ℕ → WsOpCode → C → C) (server_host : Host S) (got : WsOpCode → List ℕ → S → S)
    (spent : List ℕ → S → S) (cs : List (WsOpCode × List ℕ)) (ws : Ws) (c : C) (server_ws : Ws)
    (s : S) (chunks : List (ℕ × List ℕ))
    → Sender host deflate output key drawn put squeezed noted
    → Quiet server_host deflate got spent
    → All (IsContent deflate) cs
    → ws.upgraded ≡ true
    → output c ≡ []
    → Idle server_ws
    → server_ws.prepended ≡ []
    → 8 ≤ server_ws.inbound_size
    → All IsChunk chunks
    → joined chunks ≡ output (send_all host cs ws c).2
    → ((send_all host cs ws c).0 ≡ ok tt)
      × (ws' : Ws) × (read_all server_host chunks server_ws s
          ≡ (returned (ok tt), ws', hand got cs s))
      × Idle ws'
send_all-read_all host deflate output key drawn put squeezed noted server_host got spent cs ws c
      server_ws s chunks sender quiet content open_socket empty idle clear room ic bytes =
    let sends =
      send_all-frames host deflate output key drawn put squeezed noted sender cs ws c open_socket
        content in
    let reads =
      read_all-frames server_host deflate got spent quiet sends.0 chunks server_ws s sends.4 ic
        (bytes
          ∙ ap (λ z. output z.2) sends.2
          ∙ sends.3
          ∙ ap (λ o. o ++ frames deflate sends.0) empty)
        idle clear room in
    (
      ap (λ z. z.0) sends.2,
      reads.0,
      reads.1
          ∙ ap (λ z. (returned (ok tt), reads.0, z))
              (gather-contents got sends.0 s ∙ ap (λ l. hand got l s) sends.5),
      reads.2,
    )
