-- ===== src/HttpEndpoint/Served.antt =====
-- sockets/live/HttpServerHandler.hpp: the files that a target names.
use medici.Prelude.{
  ℕ, ◌≡◌, refl, ap, ◌∙◌, arith, Bool, true, ◌==◌, if◌then◌else◌, List, [], ◌∷◌, ◌++◌, none, some,
  err, Expected,
}
use medici.Http.Action.{get}
use medici.Http.Fields.{HttpFields}
use medici.Http.Url.{encode_string_for_url, decode_string_from_url}
use medici.Http.Url.Text.{AllAscii, decode-encode}
use medici.HttpEndpoint.{HttpError, thrown, HttpState}
use medici.HttpEndpoint.Send.{Sends}
use medici.HttpEndpoint.Server.{ServerPayload, strip}
use medici.HttpEndpoint.Handler.{
  Files, ServerConfig, handle_file_request, handle_remote_http_request,
  demux_remote_http_client_requests,
}

strip-append : (prefix s : List ℕ) → strip prefix (prefix ++ s) ≡ some s
unfolding strip
strip-append [] s = refl
strip-append (c ∷ prefix) s =
    let test : (c == c) ≡ true = ground arith in
    ap (λ (b : Bool). if b then strip prefix (prefix ++ s) else none) test ∙ strip-append prefix s

module _ {M S : Type 0} (sends : Sends M S) (files : Files S) where
  -- A `GET` of an encoded path of ASCII characters, behind the target that the server listens to, is
  -- answered from the file that has this path behind the base path, whatever the path is: one with `..` and
  -- `/` reaches the file system as it was encoded.
  pub demux-encode :
      (config : ServerConfig) (path : List ℕ) (headers : HttpFields) (payload : ServerPayload)
      (st : HttpState) (s : S)
      → AllAscii path
      → demux_remote_http_client_requests sends files config get
          (config.listen_uri_path ++ encode_string_for_url path)
          headers
          payload
          st
          s
        ≡ handle_file_request sends files config (config.base_file_path ++ b'/' ∷ path) headers st s
  unfolding demux_remote_http_client_requests
  demux-encode config path headers payload st s ascii =
      ap
        (λ r. elim r as (λ x. Expected HttpError × HttpState × S) [
          | none ↦ handle_remote_http_request sends files payload headers st s
          | some suffix ↦
              elim (decode_string_from_url suffix) as (λ x. Expected HttpError × HttpState × S) [
                | none ↦ (err thrown, st, s)
                | some p ↦
                    handle_file_request sends files config (config.base_file_path ++ b'/' ∷ p)
                      headers st s
              ]
        ])
        (strip-append config.listen_uri_path (encode_string_for_url path))
      ∙ ap
          (λ r. elim r as (λ x. Expected HttpError × HttpState × S) [
            | none ↦ (err thrown, st, s)
            | some p ↦
                handle_file_request sends files config (config.base_file_path ++ b'/' ∷ p) headers
                  st s
          ])
          (decode-encode path ascii)
