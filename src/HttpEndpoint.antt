-- ===== src/HttpEndpoint.antt =====
-- sockets/live/HTTPLiveEndpoint.hpp: the state of an endpoint, and the stream over the bytes of a read.
--
-- A `std::ispanstream` is what is left to read, with its end and failure bits; `tellg` of a failed stream is
-- the end of every position.

pub mod Body
pub mod Parse
pub mod Content
pub mod Encoding
pub mod Chunked
pub mod Send
pub mod Client
pub mod Server
pub mod Request
pub mod Line
pub mod Received
pub mod Sent
pub mod Numbers
pub mod Session
pub mod Handler
pub mod Served
pub mod Overtaken
use medici.Prelude.{
  ℕ, zero, suc, ◌+◌, ◌-◌, ◌*◌, ◌%◌, ◌^◌, Bool, true, false, not, ◌&&◌, ◌||◌, ltb, leb, ◌==◌,
  if◌then◌else◌, List, [], ◌∷◌, ◌++◌, Option, none, some, Result, ok, err, Expected, length, take,
  drop,
}
use medici.Http.Action.{HttpAction}
use medici.Http.ContentType.{SupportedCompression}
use medici.Http.Fields.{HttpFields}

pub data EndpointState : Type 0 where
  awaiting_user_request awaiting_client_request awaiting_response reading_headers : EndpointState
  reading_chunks reading_content websocket_passthrough : EndpointState

pub data HttpError : Type 0 where
  unsupported_encoding decompression_failed unexpected_passthrough buffer_overrun : HttpError
  ambiguous_content_type missing_content_type ambiguous_encoding unsupported_compression : HttpError
  form_encoding_failed header_encoding_failed unsupported_content : HttpError
  compression_failed multipart_failed decompression_not_accepted form_action file_in_get : HttpError
  user_content_type no_such_file missing_boundary file_not_open : HttpError
  -- An error of what the endpoint calls.
  failed : ℕ → HttpError
  -- An exception, which the endpoint does not catch.
  thrown : HttpError
  -- No error of the code: the fuel of a loop ran out.
  waiting : HttpError

-- `HttpResponsePayloadOptions`.
pub record PayloadOptions : Type 0 where
  pub accepted_compressions_flag : ℕ
  pub decompress_before_dispatch : Bool
  pub dispatch_partial_payloads : Bool

pub record HttpState : Type 0 where
  pub state : EndpointState
  pub server_side : Bool
  pub active_headers : HttpFields
  pub content_size : Option ℕ
  pub chunk_size : Option ℕ
  pub chunked_response : Bool
  pub http_body : List ℕ
  pub chunked_body : List ℕ
  pub compression : Option SupportedCompression
  -- An `int`: its sign and its size.
  pub response_code : Bool × ℕ
  pub incoming_action : HttpAction
  pub incoming_uri_path : List ℕ
  pub response_payload_options : PayloadOptions
  pub pending_response_options : List PayloadOptions
  pub uri_path : List ℕ
  pub uri_path_with_query_params : List ℕ
  pub compressed_data : List ℕ
  -- `_inboundBuffer.size()` and the content that waits for the next read.
  pub inbound_size : ℕ
  pub prepended : List ℕ

pub record Stream : Type 0 where
  pub rest : List ℕ
  pub eof : Bool
  pub fail : Bool

-- `getline_expected`: a line without its end, or what there was before the end of the stream.
unfoldable pub getline_from : List ℕ → List ℕ → Result (List ℕ) (List ℕ) × Stream
getline_from line [] = (err line, record { rest = []; eof = true; fail = true })
getline_from line (c ∷ rest) =
    let more = getline_from (line ++ (c ∷ [])) rest in
    if c == b'\n' then (ok line, record { rest = rest; eof = false; fail = false }) else more

unfoldable pub getline_expected : Stream → Result (List ℕ) (List ℕ) × Stream
unfolding getline_from
getline_expected s =
    if s.fail || s.eof then (err [], record s { fail = true }) else getline_from [] s.rest

-- `trim`: `find_first_not_of(" \t")` to `find_last_not_of(" \t\r")`.
unfoldable pub trim_front : List ℕ → List ℕ
trim_front [] = []
trim_front (c ∷ s) = let rest = trim_front s in if c == b' ' || c == b'\t' then rest else c ∷ s

unfoldable pub trim_back : List ℕ → List ℕ
trim_back [] = []
trim_back (c ∷ s) = keep c (trim_back s)
  where
    keep : ℕ → List ℕ → List ℕ
    keep d [] = if d == b' ' || d == b'\t' || d == b'\r' then [] else d ∷ []
    keep d (e ∷ t) = d ∷ e ∷ t

-- The text between the two positions is empty where the first is behind the second.
unfoldable pub trim : List ℕ → List ℕ
unfolding trim_front trim_back
trim s = trim_back (trim_front s)

-- The digit of a byte in a base, for `std::from_chars`.
abbrev pub digit : ℕ → ℕ → Option ℕ
digit base c =
    let v =
      if leb b'0' c && leb c b'9'
      then c - b'0'
      else if leb b'a' c && leb c b'f'
      then c - b'a' + 10
      else if leb b'A' c && leb c b'F'
      then c - b'A' + 10
      else base in
    if ltb v base then some v else none

-- The digits at the front of a text, behind those already read.
unfoldable pub digits_from : ℕ → Option ℕ → List ℕ → Option ℕ
digits_from base n [] = n
digits_from base n (c ∷ s) = elim (digit base c) [
  | none ↦ n
  | some v ↦ digits_from base (some (elim n [ none ↦ v | some m ↦ m * base + v ])) s
]

-- `std::from_chars` to a `size_t`: without digits, or past its range, the variable keeps its value.
unfoldable pub from_chars : ℕ → ℕ → List ℕ → ℕ
unfolding digits_from
from_chars base old text = elim (digits_from base none text) [
  | none ↦ old
  | some n ↦ if ltb n (2 ^ 64) then n else old
]

abbrev pub is_space : ℕ → Bool
is_space c = c == b' ' || leb b'\t' c && leb c b'\r'

unfoldable pub skip_spaces : List ℕ → List ℕ
skip_spaces [] = []
skip_spaces (c ∷ s) = let rest = skip_spaces s in if is_space c then rest else c ∷ s

-- The word at the front of a text, and what follows.
unfoldable pub take_word : List ℕ → List ℕ × List ℕ
take_word [] = ([], [])
take_word (c ∷ s) =
    let (word, rest) = take_word s in if is_space c then ([], c ∷ s) else (c ∷ word, rest)

abbrev pub is_empty : {A : Type 0} → List A → Bool
is_empty [] = true
is_empty (x ∷ xs) = false

-- `stream >> text`: at the end of the stream the end bit is set, and without a word it fails.
unfoldable pub read_word : Stream → List ℕ × Stream
unfolding skip_spaces take_word
read_word s =
    if s.fail || s.eof
    then ([], record s { fail = true })
    else let (word, rest) = take_word (skip_spaces s.rest) in
      (word, record { rest = rest; eof = is_empty rest; fail = is_empty word })

-- `std::getline`: as `getline_expected`, but a line without an end is a line if it is not empty.
unfoldable pub getline : Stream → List ℕ × Stream
unfolding getline_expected
getline s = elim (getline_expected s).0 [
  | ok line ↦ (line, (getline_expected s).1)
  | err [] ↦ ([], (getline_expected s).1)
  | err (c ∷ line) ↦ (c ∷ line, record (getline_expected s).1 { fail = false })
]

-- The digits at the front of a text as a decimal number.
unfoldable pub take_digits : List ℕ → List ℕ × List ℕ
take_digits [] = ([], [])
take_digits (c ∷ s) =
    let (ds, rest) = take_digits s in
    if leb b'0' c && leb c b'9' then (c ∷ ds, rest) else ([], c ∷ s)

-- `stream >> number` for an `int`: a sign and digits; without digits it is 0, past its range the nearest
-- `int`, and the stream fails in both cases.
unfoldable pub read_int : Stream → (Bool × ℕ) × Stream
unfolding skip_spaces take_digits from_chars
read_int s =
    if s.fail || s.eof
    then ((false, 0), record s { fail = true })
    else read_sign (skip_spaces s.rest)
  where
    number : Bool → List ℕ × List ℕ → (Bool × ℕ) × Stream
    number negative ([], rest) =
        ((false, 0), record { rest = rest; eof = is_empty rest; fail = true })
    number negative (d ∷ ds, rest) =
        let n = from_chars 10 (2 ^ 64) (d ∷ ds) in
        let limit = if negative then 2 ^ 31 else 2 ^ 31 - 1 in
        if ltb limit n
        then ((negative, limit), record { rest = rest; eof = is_empty rest; fail = true })
        else ((negative, n), record { rest = rest; eof = is_empty rest; fail = false })

    read_sign : List ℕ → (Bool × ℕ) × Stream
    read_sign [] = number false ([], [])
    read_sign (c ∷ text) =
        if c == b'-'
        then number true (take_digits text)
        else if c == b'+'
        then number false (take_digits text)
        else number false (take_digits (c ∷ text))
