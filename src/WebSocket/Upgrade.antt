-- ===== src/WebSocket/Upgrade.antt =====
-- sockets/live/WebSocketLiveEndpoint.hpp: the upgrade of an HTTP connection, `onActive` and
-- `handleBaseSocketInboundPayload` of both sides.
--
-- `Http` is the HTTP endpoint below. A header is looked up with its name in the headers that it has read.
-- What it is given to send is the response code with the headers, or the headers of the request.
use medici.Prelude.{
  ℕ, Bool, true, false, if◌then◌else◌, List, [], ◌∷◌, Option, none, some, ok, err, Expected, ◌≡◌,
}
use Prim.Native.String.{String}
use text.Mathlib.Text.{◌==◌}

pub data UpgradeError : Type 0 where
  missing_key_header not_upgraded_response : UpgradeError
  http_error : ℕ → UpgradeError

abbrev pub HeaderList : Type 0
HeaderList = List (String × String)

-- The part of the state that the upgrade uses: `_upgraded`, `_deflateRequested` and the HTTP endpoint.
pub record Upgrade (S : Type 0) : Type 0 where
  pub upgraded : Bool
  pub deflate_requested : Bool
  pub base : S

-- A send that fails and a handler that closes the endpoint reach `onDisconnected`, which resets the state:
-- what sends, and `onActive`, gets the whole of it.
pub record Http (S : Type 0) : Type 0 where
  -- `getField`.
  pub get_field : String → S → Option String
  -- `value.find(text) != npos`.
  pub has_text : String → String → Bool
  pub generate_key : S → String × S
  pub generate_accept_key : String → String
  pub set_pass_through : S → S
  pub send_http_request : HeaderList → Upgrade S → Expected UpgradeError × Upgrade S
  pub send_http_response : ℕ → HeaderList → Upgrade S → Expected UpgradeError × Upgrade S
  pub initialize_compression : S → Expected UpgradeError × S
  pub initialize_decompression : S → Expected UpgradeError × S
  pub base_on_active : Upgrade S → Expected UpgradeError × Upgrade S

abbrev pub then_do :
    {S : Type 0}
    → Expected UpgradeError × Upgrade S
    → (Upgrade S → Expected UpgradeError × Upgrade S)
    → Expected UpgradeError × Upgrade S
then_do (ok u, s) f = f s
then_do (err e, s) f = (err e, s)

abbrev pub with_base :
    {S : Type 0} → Upgrade S → Expected UpgradeError × S → Expected UpgradeError × Upgrade S
with_base u (r, s) = (r, record u { base = s })

abbrev pub wants_websocket : Option String → Bool
wants_websocket none = false
wants_websocket (some value) = value == "websocket"

-- The headers of the request.
abbrev pub request_headers : String → Bool → HeaderList
request_headers key deflate =
    ("Upgrade", "websocket")
    ∷ ("Connection", "Upgrade")
    ∷ ("Sec-WebSocket-Version", "13")
    ∷ ("Sec-WebSocket-Key", key)
    ∷ (if deflate
        then (
          "Sec-WebSocket-Extensions",
          "permessage-deflate; server_no_context_takeover; client_no_context_takeover; client_max_window_bits",
        )
          ∷ []
        else [])

module _ {S : Type 0} (http : Http S) where
  abbrev pub offers_deflate : Option String → Bool
  offers_deflate none = false
  offers_deflate (some value) = http.has_text value "permessage-deflate"

  -- `onActive` of a client sends the request.
  unfoldable pub client_on_active : Upgrade S → Expected UpgradeError × Upgrade S
  client_on_active u =
      let (key, s1) = http.generate_key u.base in
      http.send_http_request (request_headers key u.deflate_requested) (record u { base = s1 })

  abbrev pub accept_headers : String → HeaderList
  accept_headers key =
      ("Upgrade", "websocket")
      ∷ ("Connection", "Upgrade")
      ∷ ("Sec-WebSocket-Accept", http.generate_accept_key key)
      ∷ []

  -- The same headers, with the extension behind them.
  abbrev pub deflate_headers : String → HeaderList
  deflate_headers key =
      ("Upgrade", "websocket")
      ∷ ("Connection", "Upgrade")
      ∷ ("Sec-WebSocket-Accept", http.generate_accept_key key)
      ∷ (
        "Sec-WebSocket-Extensions",
        "permessage-deflate; server_no_context_takeover; client_no_context_takeover; client_max_window_bits=15",
      )
      ∷ []

  -- The response to an upgrade request with a key, with the extension or without it.
  abbrev pub accept_with : String → Bool → Upgrade S → Expected UpgradeError × Upgrade S
  accept_with key false u =
      then_do (http.send_http_response 101 (accept_headers key) u) http.base_on_active
  accept_with key true u = then_do (with_base u (http.initialize_compression u.base)) λ u1.
      then_do (with_base u1 (http.initialize_decompression u1.base))
        λ u2. then_do (http.send_http_response 101 (deflate_headers key) u2) http.base_on_active

  abbrev pub with_key : Option String → Upgrade S → Expected UpgradeError × Upgrade S
  with_key none u = (err missing_key_header, u)
  with_key (some key) u =
      accept_with key (offers_deflate (http.get_field "Sec-WebSocket-Extensions" u.base)) u

  -- `_upgraded = true` and `setPassThrough(true)`.
  abbrev pub pass_through : Upgrade S → Upgrade S
  pass_through u = record u { upgraded = true; base = http.set_pass_through u.base }

  abbrev pub server_answer : Bool → Upgrade S → Expected UpgradeError × Upgrade S
  server_answer false u = http.send_http_response 400 [] u
  server_answer true u =
      with_key (http.get_field "Sec-WebSocket-Key" (pass_through u).base) (pass_through u)

  -- The server's part of `handleBaseSocketInboundPayload`, before the upgrade.
  unfoldable pub server_upgrade : Upgrade S → Expected UpgradeError × Upgrade S
  server_upgrade u = server_answer (wants_websocket (http.get_field "Upgrade" u.base)) u

  -- The client's part.
  abbrev pub client_open : Bool → Upgrade S → Expected UpgradeError × Upgrade S
  client_open false u = http.base_on_active u
  client_open true u =
      then_do (with_base u (http.initialize_decompression u.base)) http.base_on_active

  abbrev pub client_answer : Bool → Upgrade S → Expected UpgradeError × Upgrade S
  client_answer false u = (err not_upgraded_response, u)
  client_answer true u =
      client_open (offers_deflate (http.get_field "Sec-WebSocket-Extensions" (pass_through u).base))
        (pass_through u)

  unfoldable pub client_upgrade : Upgrade S → Expected UpgradeError × Upgrade S
  client_upgrade u = client_answer (wants_websocket (http.get_field "Upgrade" u.base)) u

-- Neither a response nor `onActive` reaches the reset of the connection.
pub record StaysOpen {S : Type 0} (http : Http S) : Type 0 where
  pub send_http_response :
      (code : ℕ) (headers : HeaderList) (u : Upgrade S)
      → (http.send_http_response code headers u).1.upgraded ≡ u.upgraded
  pub base_on_active : (u : Upgrade S) → (http.base_on_active u).1.upgraded ≡ u.upgraded
