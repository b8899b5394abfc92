-- ===== src/WebSocket/Handshake.antt =====
-- sockets/live/WebSocketLiveEndpoint.hpp: the request of a client, the answer of a server and how the client
-- takes it.
use medici.Prelude.{◌≡◌, Bool, true, false, if◌then◌else◌, [], ◌∷◌, Option, none, some, ok}
use Prim.Native.String.{String}
use text.Mathlib.Text.{◌==◌}
use medici.WebSocket.Upgrade.{HeaderList, Http, Upgrade}

-- The header with a name.
abbrev pub lookup : String → HeaderList → Option String
lookup name [] = none
lookup name ((n, value) ∷ headers) =
    let rest = lookup name headers in if n == name then some value else rest

-- An endpoint that has read these headers, whether it passes payloads through or not.
abbrev pub HasRead : {S : Type 0} → Http S → HeaderList → S → Type 0
HasRead http headers s =
    ((name : String) → http.get_field name s ≡ lookup name headers)
    × ((name : String) → http.get_field name (http.set_pass_through s) ≡ lookup name headers)

-- zlib can be set up, and the texts of the extension hold its name.
pub record Deflates {S : Type 0} (http : Http S) (deflated inflated : S → S) : Type 0 where
  pub compression : (s : S) → http.initialize_compression s ≡ (ok tt, deflated s)
  pub decompression : (s : S) → http.initialize_decompression s ≡ (ok tt, inflated s)
  pub offer :
      http.has_text
        "permessage-deflate; server_no_context_takeover; client_no_context_takeover; client_max_window_bits"
        "permessage-deflate"
      ≡ true
  pub answer :
      http.has_text
        "permessage-deflate; server_no_context_takeover; client_no_context_takeover; client_max_window_bits=15"
        "permessage-deflate"
      ≡ true

-- The headers of the answer.
abbrev pub answer_headers : String → Bool → HeaderList
answer_headers accept true =
    ("Upgrade", "websocket")
    ∷ ("Connection", "Upgrade")
    ∷ ("Sec-WebSocket-Accept", accept)
    ∷ (
      "Sec-WebSocket-Extensions",
      "permessage-deflate; server_no_context_takeover; client_no_context_takeover; client_max_window_bits=15",
    )
    ∷ []
answer_headers accept false =
    ("Upgrade", "websocket") ∷ ("Connection", "Upgrade") ∷ ("Sec-WebSocket-Accept", accept) ∷ []

-- A side that has been upgraded.
abbrev pub upgraded_to : {S : Type 0} → Upgrade S → S → Upgrade S
upgraded_to u s = record u { upgraded = true; base = s }
