-- ===== src/Tests/HttpEndpoint.antt =====
-- The theorems about HTTP endpoints at concrete inputs.
use medici.Prelude.{ℕ, ◌≡◌, refl, arith, true, false, List, [], ◌∷◌, ◌++◌, none, some, ok}
use medici.Http.{codes}
use medici.Http.Action.{get, put}
use medici.Http.Fields.{HttpFields}
use medici.HttpEndpoint.{
  HttpState, HttpError, awaiting_client_request, awaiting_response, PayloadOptions,
}
use medici.HttpEndpoint.Body.{Handlers, after_message, end_chunks}
use medici.HttpEndpoint.Parse.{on_payload_ready, read_pieces}
use medici.HttpEndpoint.Request.{Field, IsField}
use medici.HttpEndpoint.Line.{request_text}
use medici.HttpEndpoint.Send.{Sends, send_http_data, payload_sent, run_sent}
use medici.HttpEndpoint.Sent.{requested, request_entry}
use medici.HttpEndpoint.Session.{send_http_data-on_payload_ready}
use medici.Http.Url.Text.{AllAscii}
use medici.HttpEndpoint.Server.{payload_view}
use medici.HttpEndpoint.Handler.{
  Files, ServerConfig, handle_file_request, demux_remote_http_client_requests,
}
use medici.HttpEndpoint.Overtaken.{client_reading, run_sent-on_payload_ready}
use medici.HttpEndpoint.Served.{demux-encode}
use medici.HttpEndpoint.Received.{awaiting, headed, on_payload_ready-request_text}
use medici.HttpEndpoint.Content.{reading, read_pieces-body}
use medici.HttpEndpoint.Chunked.{chunking, on_payload_ready-encoded}
use medici.HttpEndpoint.Encoding.{Chunk, encoded, trailer, IsChunk, Sizes}

-- The application keeps the bodies it is handed.
abbrev handlers : Handlers (List (List ℕ))
handlers = record {
  payload_handler = λ fields body st s. (ok tt, st, body ∷ s);
  decompress = λ c body s. (ok body, s);
  close_compression = λ s. s;
  close_endpoint = λ st s. (st, s);
  uninitialized = λ s. 0;
}

abbrev no_fields : HttpFields
no_fields = record {
  case_transform = λ c. c;
  field_value_map = [];
  field_count = 0;
  has_array_fields = false;
  has_file_path_fields = false;
}

abbrev server : HttpState
server = record {
  state = awaiting_client_request;
  server_side = true;
  active_headers = no_fields;
  content_size = none;
  chunk_size = none;
  chunked_response = false;
  http_body = [];
  chunked_body = [];
  compression = none;
  response_code = (false, 0);
  incoming_action = get;
  incoming_uri_path = [];
  response_payload_options = record {
    accepted_compressions_flag = 0;
    decompress_before_dispatch = false;
    dispatch_partial_payloads = false;
  };
  pending_response_options = [];
  uri_path = [];
  uri_path_with_query_params = [];
  compressed_data = [];
  inbound_size = 100;
  prepended = [];
}

-- A body of five bytes, of which two were read before, in two pieces.
read_pieces-body_example :
    read_pieces handlers ((3 ∷ 4 ∷ []) ∷ (5 ∷ []) ∷ []) (reading server (1 ∷ 2 ∷ []) 5) [] ≡ (
      ok tt,
      after_message (reading server (1 ∷ 2 ∷ 3 ∷ 4 ∷ 5 ∷ []) 5),
      (1 ∷ 2 ∷ 3 ∷ 4 ∷ 5 ∷ []) ∷ [],
    )
unfolding medici.Http.Fields.get_field
read_pieces-body_example =
    read_pieces-body handlers ((3 ∷ 4 ∷ []) ∷ (5 ∷ []) ∷ []) (1 ∷ 2 ∷ []) (1 ∷ 2 ∷ 3 ∷ 4 ∷ 5 ∷ [])
      server [] ((λ e. cc), ((λ e. cc), tt)) (λ e. cc) refl refl

-- "2;x", then two bytes; "0", and a line behind it.
abbrev two_bytes : Chunk
two_bytes = record { line = b'2' ∷ b';' ∷ b'x' ∷ b'\r' ∷ []; bytes = 7 ∷ b'\n' ∷ [] }

abbrev no_bytes : List ℕ
no_bytes = b'0' ∷ b'\r' ∷ []

abbrev line_behind : List ℕ
line_behind = b'a' ∷ b':' ∷ b'b' ∷ b'\r' ∷ []

two_bytes-IsChunk : IsChunk two_bytes
unfolding medici.HttpEndpoint.from_chars medici.HttpEndpoint.trim
two_bytes-IsChunk = (
  (
    (
      ((λ e. omega arith), ((λ e. omega arith), ((λ e. omega arith), ((λ e. omega arith), tt)))),
      refl,
    ),
    λ old. refl,
  ),
  λ e. cc,
)

no_bytes-Sizes : Sizes no_bytes 0
unfolding medici.HttpEndpoint.from_chars medici.HttpEndpoint.trim
no_bytes-Sizes = ((((λ e. omega arith), ((λ e. omega arith), tt)), refl), λ old. refl)

on_payload_ready-encoded_example :
    on_payload_ready handlers
      (encoded (two_bytes ∷ []) (no_bytes ++ (b'\n' ∷ trailer (line_behind ∷ []) [])))
      (chunking server (1 ∷ []))
      []
    ≡ (
      ok tt,
      after_message (end_chunks (chunking server (1 ∷ 7 ∷ b'\n' ∷ []))),
      (1 ∷ 7 ∷ b'\n' ∷ []) ∷ [],
    )
unfolding medici.Http.Fields.get_field medici.HttpEndpoint.trim
on_payload_ready-encoded_example =
    on_payload_ready-encoded handlers (two_bytes ∷ []) no_bytes (line_behind ∷ []) (1 ∷ []) server
      [] (two_bytes-IsChunk, tt) no_bytes-Sizes
      (
        (
          (
            (λ e. omega arith),
            ((λ e. omega arith), ((λ e. omega arith), ((λ e. omega arith), tt))),
          ),
          refl,
        ),
        tt,
      )
      refl

abbrev target : List ℕ
target = b'/' ∷ b'x' ∷ []

abbrev size_field : Field
size_field = (codes "Content-Length", b'3' ∷ [])

abbrev other_field : Field
other_field = (b'A' ∷ [], b'b' ∷ b' ' ∷ b'c' ∷ [])

size_field-IsField : IsField size_field
unfolding medici.HttpEndpoint.trim
size_field-IsField = (
  (
    ((λ e. omega arith), (λ e. omega arith)),
    (
      ((λ e. omega arith), (λ e. omega arith)),
      (
        ((λ e. omega arith), (λ e. omega arith)),
        (
          ((λ e. omega arith), (λ e. omega arith)),
          (
            ((λ e. omega arith), (λ e. omega arith)),
            (
              ((λ e. omega arith), (λ e. omega arith)),
              (
                ((λ e. omega arith), (λ e. omega arith)),
                (
                  ((λ e. omega arith), (λ e. omega arith)),
                  (
                    ((λ e. omega arith), (λ e. omega arith)),
                    (
                      ((λ e. omega arith), (λ e. omega arith)),
                      (
                        ((λ e. omega arith), (λ e. omega arith)),
                        (
                          ((λ e. omega arith), (λ e. omega arith)),
                          (
                            ((λ e. omega arith), (λ e. omega arith)),
                            (((λ e. omega arith), (λ e. omega arith)), tt),
                          ),
                        ),
                      ),
                    ),
                  ),
                ),
              ),
            ),
          ),
        ),
      ),
    ),
  ),
  (((λ e. omega arith), tt), (refl, refl)),
)

other_field-IsField : IsField other_field
unfolding medici.HttpEndpoint.trim
other_field-IsField = (
  (((λ e. omega arith), (λ e. omega arith)), tt),
  (((λ e. omega arith), ((λ e. omega arith), ((λ e. omega arith), tt))), (refl, refl)),
)

on_payload_ready-request_text_example :
    on_payload_ready handlers
      (request_text put target (other_field ∷ size_field ∷ []) (7 ∷ 8 ∷ 9 ∷ []))
      (awaiting server)
      []
    ≡ (
      ok tt,
      record (awaiting (headed server put target (other_field ∷ size_field ∷ []))) {
        content_size = some 3;
        http_body = 7 ∷ 8 ∷ 9 ∷ [];
      },
      (7 ∷ 8 ∷ 9 ∷ []) ∷ [],
    )
unfolding medici.Http.Fields.get_field medici.Http.Fields.add_field_value
    medici.HttpEndpoint.from_chars medici.Http.Url.insert_field
    medici.HttpEndpoint.Body.reset_incoming_http_state medici.Http.same_text
on_payload_ready-request_text_example =
    on_payload_ready-request_text handlers put target (other_field ∷ size_field ∷ []) (b'3' ∷ [])
      (7 ∷ 8 ∷ 9 ∷ []) server [] ((refl, (refl, tt)), refl)
      (other_field-IsField, (size_field-IsField, tt)) refl refl (λ old. refl)

-- The endpoint below keeps what it is given.
abbrev sends : Sends Unit (List (List ℕ))
sends = record {
  compress = λ c body s. (ok tt, body, s);
  compress_file = λ c path s. (ok tt, [], s);
  encode_multipart = λ m s. (ok [], s);
  file_size = λ path s. 0;
  open_file = λ path s. (true, s);
  read_file = λ s. ([], s);
  host = b'h' ∷ [];
  send_async = λ bytes on_sent st s. (ok tt, st, bytes ∷ s);
}

abbrev client_fields : HttpFields
client_fields = record no_fields {
  field_value_map =
      (b'A' ∷ [], record { value = b'b' ∷ b' ' ∷ b'c' ∷ []; is_file_path = false }) ∷ [];
  field_count = 1;
}

host-IsField : IsField (codes "Host", b'h' ∷ [])
unfolding medici.HttpEndpoint.trim
host-IsField = (
  (
    ((λ e. omega arith), (λ e. omega arith)),
    (
      ((λ e. omega arith), (λ e. omega arith)),
      (((λ e. omega arith), (λ e. omega arith)), (((λ e. omega arith), (λ e. omega arith)), tt)),
    ),
  ),
  (((λ e. omega arith), tt), (refl, refl)),
)

-- A request with three bytes, from a client to a server.
send_http_data-on_payload_ready_example :
    (send_http_data sends
        (request_entry sends put client_fields
          (7 ∷ 8 ∷ 9 ∷ [])
          target
          server.response_payload_options)
        (record server { server_side = false })
        []
      ≡ (
        ok tt,
        requested server target server.response_payload_options,
        request_text put target
              ((codes "Host", b'h' ∷ []) ∷ other_field ∷ size_field ∷ [])
              (7 ∷ 8 ∷ 9 ∷ [])
            ∷ [],
      ))
    × (on_payload_ready handlers
          (request_text put target
            ((codes "Host", b'h' ∷ []) ∷ other_field ∷ size_field ∷ [])
            (7 ∷ 8 ∷ 9 ∷ []))
          (awaiting server)
          []
        ≡ (
          ok tt,
          record (awaiting (
              headed server put target
                ((codes "Host", b'h' ∷ []) ∷ other_field ∷ size_field ∷ []))) {
                  content_size = some 3;
                  http_body = 7 ∷ 8 ∷ 9 ∷ [];
                },
          (7 ∷ 8 ∷ 9 ∷ []) ∷ [],
        ))
unfolding medici.Http.Fields.get_field medici.Http.Fields.add_field_value
    medici.Http.Url.insert_field medici.HttpEndpoint.Body.reset_incoming_http_state
    medici.Http.same_text medici.HttpEndpoint.Send.to_string
send_http_data-on_payload_ready_example =
    send_http_data-on_payload_ready sends handlers put client_fields 7 (8 ∷ 9 ∷ []) target
      server.response_payload_options server server [] [] ((refl, refl), ((refl, refl), tt))
      (host-IsField, (other_field-IsField, (size_field-IsField, tt))) ((refl, (refl, tt)), refl)
      (omega arith) refl refl

abbrev files : Files (List (List ℕ))
files = record {
  is_directory = λ path s. false;
  is_regular_file = λ path s. true;
  directory_entries = λ path s. [];
  to_upper = λ c. c;
  error_text = λ e. [];
}

abbrev config : ServerConfig
config = record { base_file_path = codes "www"; listen_uri_path = codes "/" }

-- A path that leaves the base path.
abbrev path_above : List ℕ
path_above = codes "../a"

path_above-AllAscii : AllAscii path_above
unfolding medici.Http.Url.Text.AllAscii
path_above-AllAscii = (omega arith, (omega arith, (omega arith, (omega arith, tt))))

demux-encode_example :
    demux_remote_http_client_requests sends files config get
      (codes "/..%2Fa")
      no_fields
      (payload_view [])
      server
      []
    ≡ handle_file_request sends files config (codes "www/../a") no_fields server []
unfolding medici.Http.Url.encode_string_for_url
demux-encode_example =
    demux-encode sends files config path_above no_fields (payload_view []) server []
      path_above-AllAscii

-- Two bytes of a body of five, of which one was read, when the send of the next request has ended.
run_sent-on_payload_ready_example :
    on_payload_ready handlers
      (2 ∷ 3 ∷ [])
      (run_sent sends payload_sent (client_reading server (1 ∷ []) 5) []).1
      []
    ≡ (
      ok tt,
      record (client_reading server (1 ∷ []) 5) {
        state = awaiting_response;
        prepended = 2 ∷ 3 ∷ [];
      },
      [],
    )
unfolding medici.HttpEndpoint.Parse.has_full_header_line
run_sent-on_payload_ready_example =
    run_sent-on_payload_ready handlers sends 2 (3 ∷ []) (1 ∷ []) 5 server [] refl (omega arith)
