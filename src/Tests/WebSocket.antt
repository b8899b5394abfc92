-- ===== src/Tests/WebSocket.antt =====
-- The theorems about WebSocket endpoints at concrete inputs.
use medici.Prelude.{
  Bool, ℕ, ◌+◌, ◌%◌, ◌^◌, ◌≤◌, ◌≡◌, ◌↔◌, refl, arith, true, false, List, [], ◌∷◌, ◌++◌, none, some,
  ok, err, All, length, take, drop, replicate,
}
use package.text.Mathlib.Text.{◌==◌}
use medici.WebSocket.{WsOpCode, text, binary, client_frame, mask_from}
use medici.WebSocket.Endpoint.{Ws, Host, client, server, send_all}
use medici.WebSocket.Receive.{
  Header, returned, read_all, header, read_header, view, begin_frame, frame_length,
}
use medici.WebSocket.Wire.{Idle}
use medici.WebSocket.Delivery.{Quiet}
use medici.WebSocket.Sender.{Sender, IsContent}
use medici.WebSocket.Session.{hand, joined, IsChunk, send_all-read_all}
use medici.WebSocket.Bounds.{view_outside, client_frame-cut}
use medici.WebSocket.Frames.{key_of}
use medici.WebSocket.Handshake.{lookup}
use medici.WebSocket.Upgrade.{Upgrade, Http, HeaderList, missing_key_header, server_upgrade}

-- A stand-in for zlib: it writes a byte in front.
abbrev deflate : List ℕ → List ℕ
deflate p = 7 ∷ p

-- A client that counts its frames and keeps what it has written.
abbrev client_host : Host (ℕ × List ℕ)
client_host = record {
  side = client;
  incoming = λ p op t ws c. (ok tt, ws, c);
  outgoing = λ p op t ws c. (ws, c);
  call = λ cb ws c. (ok tt, ws, c);
  clock = λ c. c.0;
  send = λ f ws c. (ok tt, ws, (c.0 + 1, c.1 ++ f));
  send_async = λ f finish ws c. (ok tt, ws, c);
  disconnected = λ r ws c. (ok tt, ws, c);
  reset_base = λ c. c;
  generate_masking_key = λ c. (key_of 1 2 3 4, c);
  compression_active = λ c. true;
  compress = λ p c. (ok (deflate p), c);
  reset_compression = λ c. (ok tt, c);
  decompress = λ p c. (ok (drop 1 p), c);
  reset_decompression = λ c. (ok tt, c);
}

abbrev keep : WsOpCode → List ℕ → List (WsOpCode × List ℕ) → List (WsOpCode × List ℕ)
keep op_code payload seen = (op_code, payload) ∷ seen

abbrev server_host : Host (List (WsOpCode × List ℕ))
server_host = record {
  side = server;
  incoming = λ p op t ws seen. (ok tt, ws, keep op p seen);
  outgoing = λ p op t ws seen. (ws, seen);
  call = λ cb ws seen. (ok tt, ws, seen);
  clock = λ seen. 5;
  send = λ f ws seen. (ok tt, ws, seen);
  send_async = λ f finish ws seen. (ok tt, ws, seen);
  disconnected = λ r ws seen. (ok tt, ws, seen);
  reset_base = λ seen. seen;
  generate_masking_key = λ seen. (key_of 0 0 0 0, seen);
  compression_active = λ seen. true;
  compress = λ p seen. (ok (deflate p), seen);
  reset_compression = λ seen. (ok tt, seen);
  decompress = λ p seen. (ok (drop 1 p), seen);
  reset_decompression = λ seen. (ok tt, seen);
}

abbrev fresh : Ws
fresh = record {
  upgraded = true;
  frame_read_time = none;
  masking_key = none;
  continuation_buffer = [];
  first_op = none;
  pending_ws_frame_content = 0;
  final_frame = false;
  compressed_message = false;
  inbound_size = 1024;
  prepended = [];
}

abbrev posts : List (WsOpCode × List ℕ)
posts = (text, b'h' ∷ b'i' ∷ []) ∷ (binary, []) ∷ []

client_host-Sender :
    Sender client_host deflate
      (λ c. c.1)
      (λ c. (1, 2, 3, 4))
      (λ c. c)
      (λ f c. (c.0 + 1, c.1 ++ f))
      (λ p c. c)
      (λ p op c. c)
client_host-Sender = record {
  is_client = refl;
  draw = λ c. refl;
  key_IsByte = λ c. omega arith;
  send = λ f ws c. refl;
  compress = λ p c. refl;
  outgoing = λ p op t ws c. refl;
  output-put = λ f c. refl;
  output-drawn = λ c. refl;
  output-squeezed = λ p c. refl;
  output-noted = λ p op c. refl;
}

server_host-Quiet : Quiet server_host deflate keep (λ p seen. seen)
server_host-Quiet = record {
  incoming = λ p op t ws seen. refl;
  decompress = λ p seen. refl;
  reset_decompression = λ p seen. refl;
}

-- The bytes of both frames, read in three pieces: the first ends inside a header, the second inside the
-- payload.
abbrev pieces : List (ℕ × List ℕ)
pieces =
    (1, 193 ∷ 131 ∷ 1 ∷ [])
    ∷ (2, 2 ∷ 3 ∷ 4 ∷ 6 ∷ [])
    ∷ (3, 106 ∷ 106 ∷ 194 ∷ 129 ∷ 1 ∷ 2 ∷ 3 ∷ 4 ∷ 6 ∷ [])
    ∷ []

pieces_whole : joined pieces ≡ ((send_all client_host posts fresh (0, [])).2).1
unfolding send_all client_frame
pieces_whole = refl

posts-IsContent : All (IsContent deflate) posts
posts-IsContent = (
  (refl, omega arith, omega arith, omega arith, omega arith),
  ((refl, omega arith, omega arith, omega arith, omega arith), tt),
)

pieces-IsChunk : All IsChunk pieces
pieces-IsChunk =
    (((λ e. cc), omega arith), (((λ e. cc), omega arith), (((λ e. cc), omega arith), tt)))

send_all-read_all_example :
    ((send_all client_host posts fresh (0, [])).0 ≡ ok tt)
    × (ws' : Ws) × (read_all server_host pieces fresh []
        ≡ (returned (ok tt), ws', hand keep posts []))
    × Idle ws'
send_all-read_all_example =
    send_all-read_all client_host deflate (λ c. c.1) (λ c. (1, 2, 3, 4)) (λ c. c)
      (λ f c. (c.0 + 1, c.1 ++ f)) (λ p c. c) (λ p op c. c) server_host keep (λ p seen. seen) posts
      fresh (0, []) fresh [] pieces client_host-Sender server_host-Quiet posts-IsContent refl refl
      (record { pending = refl; first_op = refl; kept = refl }) refl (omega arith) pieces-IsChunk
      pieces_whole

-- A masked frame of 14 bytes whose header says 0xffffffff.
abbrev vast : List ℕ
vast = 130 ∷ 255 ∷ 0 ∷ 0 ∷ 0 ∷ 0 ∷ 255 ∷ 255 ∷ 255 ∷ 255 ∷ 1 ∷ 2 ∷ 3 ∷ 4 ∷ []

abbrev vast_header : Header
vast_header = record {
  expected_frame_payload_length = 4294967295;
  header_size = 10;
  key = some (1 ∷ 2 ∷ 3 ∷ 4 ∷ []);
}

vast_read : read_header server vast (length vast) ≡ header vast_header
unfolding read_header
vast_read = refl

view_outside_example :
    (view vast 14 (begin_frame vast_header (length vast) 0 fresh).2 ≡ none)
    ↔ ((2 ^ 32 ≤ 4294967295 + 10) × (frame_length vast_header ≤ length vast))
view_outside_example =
    view_outside server vast vast_header 0 fresh (omega arith) (omega arith) vast_read

abbrev long : List ℕ
long = replicate 65540 7

client_frame-cut_example :
    client_frame (key_of 1 2 3 4) false text long
    ≡ client_frame (key_of 1 2 3 4) false text (take (length long % 2 ^ 16) long)
      ++ mask_from (key_of 1 2 3 4) (length long % 2 ^ 16) (drop (length long % 2 ^ 16) long)
client_frame-cut_example = client_frame-cut (key_of 1 2 3 4) false text long

-- A host whose request asks for the upgrade and has no key.
abbrev keyless : Http ℕ
keyless = record {
  get_field = λ name s. elim (name == "Upgrade") [ true ↦ some "websocket" | false ↦ none ];
  has_text = λ value part. false;
  generate_key = λ s. ("key", s);
  generate_accept_key = λ key. key;
  set_pass_through = λ s. s + 1;
  send_http_request = λ headers u. (ok tt, u);
  send_http_response = λ response headers u. (ok tt, record u { base = u.base + 10 });
  initialize_compression = λ s. (ok tt, s);
  initialize_decompression = λ s. (ok tt, s);
  base_on_active = λ u. (ok tt, record u { base = u.base + 100 });
}

abbrev waiting_upgrade : Upgrade ℕ
waiting_upgrade = record { upgraded = false; deflate_requested = true; base = 0 }

keyless_upgrade :
    server_upgrade keyless waiting_upgrade
    ≡ (err missing_key_header, record { upgraded = true; deflate_requested = true; base = 1 })
unfolding server_upgrade
keyless_upgrade = refl

-- The headers that an endpoint has read, and a count of what it has done.
abbrev ReadHost : Type 0
ReadHost = HeaderList × ℕ

abbrev counting : Http ReadHost
counting = record {
  get_field = λ name s. lookup name s.0;
  has_text = λ value part. true;
  generate_key = λ s. ("key", s);
  generate_accept_key = λ key. "accept";
  set_pass_through = λ s. (s.0, s.1 + 1);
  send_http_request = λ headers u. (ok tt, record u { base = (headers, u.base.1 + 10) });
  send_http_response = λ code headers u. (ok tt, record u { base = (headers, u.base.1 + code) });
  initialize_compression = λ s. (ok tt, (s.0, s.1 + 1000));
  initialize_decompression = λ s. (ok tt, (s.0, s.1 + 10000));
  base_on_active = λ u. (ok tt, record u { base = (u.base.0, u.base.1 + 100000) });
}

-- The upgrade once it has done so much.
abbrev counted : Bool → HeaderList → ℕ → Upgrade ReadHost
counted upgraded headers n = record {
  upgraded = upgraded;
  deflate_requested = true;
  base = (headers, n);
}
