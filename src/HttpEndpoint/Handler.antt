-- ===== src/HttpEndpoint/Handler.antt =====
-- sockets/live/HttpServerHandler.hpp: the answers of a server of files. A path is the list of its bytes.
use medici.Prelude.{
  ℕ, Bool, true, false, ◌==◌, if◌then◌else◌, List, [], ◌∷◌, ◌++◌, none, some, ok, err, Expected,
  length, drop,
}
use medici.Http.{codes}
use medici.Http.Action.{HttpAction, get}
use medici.Http.ContentType.{
  ContentType, text_html, app_binary, app_gzip, video_flv, video_mpeg, video_mp4, image_png,
  image_jpeg, image_gif, image_bmp, image_tiff, SupportedCompression, no_compression, gzip,
  http_deflate, brotli, get_content_type_from_file_path,
}
use medici.Http.Fields.{HttpFields, get_field, add_field_value}
use medici.Http.Url.{decode_string_from_url}
use medici.HttpEndpoint.{HttpError, thrown, HttpState}
use medici.HttpEndpoint.Send.{Sends, add_field}
use medici.HttpEndpoint.Server.{
  ServerPayload, form_fields, payload_view, strip, behind, send_http_response, send_file_response,
}

-- The file system, `::toupper`, and the texts of errors.
pub record Files (S : Type 0) : Type 0 where
  pub is_directory : List ℕ → S → Bool
  pub is_regular_file : List ℕ → S → Bool
  -- The names in a directory, and whether they are directories.
  pub directory_entries : List ℕ → S → List (List ℕ × Bool)
  pub to_upper : ℕ → ℕ
  pub error_text : HttpError → List ℕ

-- `HttpServerHandler`, what it does not change.
pub record ServerConfig : Type 0 where
  pub base_file_path : List ℕ
  pub listen_uri_path : List ℕ

-- `filename()`: what is behind the last `/`.
unfoldable pub filename : List ℕ → List ℕ → List ℕ
filename name [] = name
filename name (c ∷ path) = if c == b'/' then filename [] path else filename (name ++ (c ∷ [])) path

-- `path / "index.html"`.
unfoldable pub index_path : List ℕ → List ℕ
index_path [] = codes "index.html"
index_path (c ∷ []) = if c == b'/' then c ∷ codes "index.html" else c ∷ b'/' ∷ codes "index.html"
index_path (c ∷ d ∷ path) = c ∷ index_path (d ∷ path)

-- What is not worth compressing.
abbrev pub is_packed : ContentType → Bool
is_packed image_jpeg = true
is_packed image_png = true
is_packed image_gif = true
is_packed image_bmp = true
is_packed image_tiff = true
is_packed video_flv = true
is_packed video_mpeg = true
is_packed video_mp4 = true
is_packed app_gzip = true
is_packed _ = false

abbrev pub has_text : List ℕ → List ℕ → Bool
has_text text_ s = elim (behind text_ s) [ some rest ↦ true | none ↦ false ]

-- `getAcceptedCompression`.
unfoldable pub get_accepted_compression : ContentType → HttpFields → SupportedCompression
unfolding get_field behind
get_accepted_compression content_type headers =
    if is_packed content_type
    then no_compression
    else elim (get_field headers (codes "Accept-Encoding")) [
      | err e ↦ no_compression
      | ok accepted ↦
          if has_text (codes "gzip") accepted
          then gzip
          else if has_text (codes "deflate") accepted
          then http_deflate
          else if has_text (codes "br") accepted
          then brotli
          else no_compression
    ]

-- The lines of a listing.
abbrev pub listing_of : List (List ℕ × Bool) → List ℕ
listing_of [] = []
listing_of ((name, directory) ∷ names) =
    let shown = if directory then name ++ (b'/' ∷ []) else name in
    codes "<li><a href=\"" ++ shown ++ codes "\">" ++ shown ++ codes "</a></li>" ++ listing_of names

module _ {M S : Type 0} (sends : Sends M S) (files : Files S) where
  abbrev pub no_headers : HttpFields
  no_headers = record {
    case_transform = files.to_upper;
    field_value_map = [];
    field_count = 0;
    has_array_fields = false;
    has_file_path_fields = false;
  }

  -- `sendDirectoryListing`.
  unfoldable pub send_directory_listing :
      ServerConfig → List ℕ → HttpFields → HttpState → S → Expected HttpError × HttpState × S
  unfolding get_accepted_compression send_http_response
  send_directory_listing config directory_path request_headers st s =
      let listing_html =
        codes "<html><body><h1>"
        ++ drop (length config.base_file_path) directory_path
        ++ codes "</h1><ul>"
        ++ codes "<li><a href=\"../\">[Parent Directory]</a></li>"
        ++ listing_of (files.directory_entries directory_path s)
        ++ codes "</ul></body></html>" in
      send_http_response sends no_headers (false, 200) (codes "OK") listing_html text_html
        (get_accepted_compression text_html request_headers) st s

  -- `sendFileAsDownload`.
  unfoldable pub send_file_as_download : List ℕ → HttpState → S → Expected HttpError × HttpState × S
  unfolding filename add_field_value send_file_response
  send_file_as_download file_path st s =
      send_file_response sends files.is_regular_file
        (add_field no_headers "Content-Disposition"
          (codes "attachment; filename=\"" ++ filename [] file_path ++ codes "\""))
        (false, 200) (codes "OK") file_path app_binary no_compression st s

  -- The answer to a file that was not sent: its text stands where the message of the status line is.
  abbrev pub or_not_found :
      List ℕ → Expected HttpError × HttpState × S → Expected HttpError × HttpState × S
  or_not_found file_path (ok u, st, s) = (ok tt, st, s)
  or_not_found file_path (err e, st, s) =
      send_http_response sends no_headers (false, 404)
        (codes "<html><body><h1>Error sending file '"
          ++ file_path
          ++ codes "'</h1><p>"
          ++ files.error_text e
          ++ codes "</p></body></html>")
        (files.error_text e) text_html no_compression st s

  -- `handleFileRequest`; the headers of the request go into the response.
  unfoldable pub handle_file_request :
      ServerConfig → List ℕ → HttpFields → HttpState → S → Expected HttpError × HttpState × S
  unfolding index_path get_accepted_compression get_content_type_from_file_path send_file_response
      send_http_response send_directory_listing
  handle_file_request config file_path request_headers st s =
      if files.is_directory file_path s
      then (if files.is_regular_file (index_path file_path) s
          then send_file_response sends files.is_regular_file request_headers (false, 200)
              (codes "OK") (index_path file_path) text_html
              (get_accepted_compression text_html request_headers) st s
          else send_directory_listing config file_path request_headers st s)
      else let content_type = get_content_type_from_file_path file_path in
        or_not_found file_path (
          send_file_response sends files.is_regular_file request_headers (false, 200) (codes "OK")
            file_path content_type (get_accepted_compression content_type request_headers) st s)

  -- `handleRemoteHttpFormRequest` and `handleRemoteHttpRequest`: the texts stand the other way around here too.
  unfoldable pub handle_remote_http_request :
      ServerPayload → HttpFields → HttpState → S → Expected HttpError × HttpState × S
  unfolding get_accepted_compression send_http_response
  handle_remote_http_request (form_fields form) request_headers st s =
      send_http_response sends no_headers (false, 404)
        (codes
          "<html><body><h1>404 Not Found</h1><p>Cannot process the submitted form data on this server.</p></body></html>")
        (codes "Not Found") text_html (get_accepted_compression text_html request_headers) st s
  handle_remote_http_request (payload_view payload) request_headers st s =
      send_http_response sends no_headers (false, 404)
        (codes
          "<html><body><h1>404 Not Found</h1><p>The requested resource was not found on this server.</p></body></html>")
        (codes "Not Found") text_html (get_accepted_compression text_html request_headers) st s

  -- `demuxRemoteHttpClientRequests`.
  unfoldable pub demux_remote_http_client_requests :
      ServerConfig
      → HttpAction
      → List ℕ
      → HttpFields
      → ServerPayload
      → HttpState
      → S
      → Expected HttpError × HttpState × S
  unfolding strip decode_string_from_url handle_file_request handle_remote_http_request
  demux_remote_http_client_requests config get uri_path request_headers payload st s =
      elim (strip config.listen_uri_path uri_path) [
        | none ↦ handle_remote_http_request payload request_headers st s
        | some suffix ↦ elim (decode_string_from_url suffix) [
          | none ↦ (err thrown, st, s)
          | some path ↦
              handle_file_request config (config.base_file_path ++ b'/' ∷ path) request_headers st s
        ]
      ]
  demux_remote_http_client_requests config action uri_path request_headers payload st s =
      handle_remote_http_request payload request_headers st s
