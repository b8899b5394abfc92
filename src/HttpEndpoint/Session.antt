-- ===== src/HttpEndpoint/Session.antt =====
-- sockets/live/HTTPLiveEndpoint.hpp: a request from a client to a server.
use medici.Prelude.{ℕ, ◌^◌, ◌<◌, ◌≡◌, false, List, [], ◌∷◌, none, some, length, All}
use medici.Http.{codes}
use medici.Http.Action.{HttpAction}
use medici.Http.Fields.{HttpFields, clear}
use medici.HttpEndpoint.{HttpState, PayloadOptions}
use medici.HttpEndpoint.Body.{Handlers, header}
use medici.HttpEndpoint.Parse.{on_payload_ready}
use medici.HttpEndpoint.Send.{Sends, payload_sent, send_http_data, to_string, add_field}
use medici.HttpEndpoint.Request.{Field, added, IsField}
use medici.HttpEndpoint.Line.{IsWord, request_text}
use medici.HttpEndpoint.Received.{awaiting, headed, on_payload_ready-request_text}
use medici.HttpEndpoint.Sent.{
  entries, Single, requested, request_entry, send_http_data-request_text,
}
use medici.HttpEndpoint.Numbers.{from_chars-to_string}

-- The headers of a request with a content: `Content-Length` joins those of the client, behind the host.
abbrev pub sent_headers : HttpFields → List ℕ → HttpFields
sent_headers h body = add_field h "Content-Length" (to_string (length body))

abbrev pub sent_fields : List ℕ → HttpFields → List ℕ → List Field
sent_fields host h body = (codes "Host", host) ∷ entries (sent_headers h body).field_value_map

module _ {M S T : Type 0} (sends : Sends M S) (handlers : Handlers T) where
  -- A request with a content that is not empty and not compressed: the client hands one text to
  -- the endpoint below, notes the options of the response, and a server that reads the text at once hands
  -- the content, and the host and the headers of the client, to its application, once. The headers can
  -- stand in lines of their own, the target has no space, and the server finds the length in its table,
  -- and no encoding.
  pub send_http_data-on_payload_ready :
      (action : HttpAction) (h : HttpFields) (c : ℕ) (body uri : List ℕ) (options : PayloadOptions)
      (client server : HttpState) (s : S) (t : T)
      → Single [] (sent_headers h (c ∷ body)).field_value_map
      → All IsField (sent_fields sends.host h (c ∷ body))
      → IsWord uri
      → length (c ∷ body) < 2 ^ 64
      → header (headed server action uri (sent_fields sends.host h (c ∷ body))) "Content-Encoding"
        ≡ none
      → header (headed server action uri (sent_fields sends.host h (c ∷ body))) "Content-Length"
        ≡ some (to_string (length (c ∷ body)))
      → (send_http_data sends
            (request_entry sends action h (c ∷ body) uri options)
            (record client { server_side = false })
            s
          ≡ sends.send_async
              (request_text action uri (sent_fields sends.host h (c ∷ body)) (c ∷ body))
              payload_sent
              (requested client uri options)
              s)
        × (on_payload_ready handlers
              (request_text action uri (sent_fields sends.host h (c ∷ body)) (c ∷ body))
              (awaiting server)
              t
            ≡ handlers.payload_handler
                (added (clear server.active_headers) (sent_fields sends.host h (c ∷ body)))
                (c ∷ body)
                (record (awaiting
                  (headed server action uri (sent_fields sends.host h (c ∷ body)))) {
                    content_size = some (length (c ∷ body));
                    http_body = c ∷ body;
                  })
                (handlers.close_compression t))
  send_http_data-on_payload_ready action h c body uri options client server s t single are_fields
        is_word small plain sized =
      (
        send_http_data-request_text sends action h c body uri options client s single,
        on_payload_ready-request_text handlers action uri (sent_fields sends.host h (c ∷ body))
            (to_string (length (c ∷ body))) (c ∷ body) server t is_word are_fields plain sized
            (λ old. from_chars-to_string (length (c ∷ body)) old small),
      )
