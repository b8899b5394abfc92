-- ===== src/Http/ContentType.antt =====
-- http/ContentType.hpp and http/ContentType.cpp.
use Prim.Native.String.{String}
use medici.Prelude.{
  ℕ, ◌≡◌, Bool, ◌||◌, ◌==◌, List, [], ◌∷◌, ◌++◌, Option, none, some, if◌then◌else◌,
}
use medici.Http.{codes, same_text}

pub data ContentType : Type 0 where
  text_html text_css text_csv text_plain : ContentType
  app_binary app_gzip app_javascript app_json app_xml app_pdf : ContentType
  video_flv video_mpeg video_mp4 : ContentType
  image_png image_jpeg image_gif image_bmp image_ico image_tiff image_svgxml : ContentType
  mutlipart_form url_encoded_form unspecified : ContentType

pub data SupportedCompression : Type 0 where
  no_compression gzip http_deflate ws_deflate brotli : SupportedCompression

-- `to_string(ContentType)`.
unfoldable pub show_content_type : ContentType → String
show_content_type text_html = "text/html"
show_content_type text_css = "text/css"
show_content_type text_csv = "text/csv"
show_content_type text_plain = "text/plain"
show_content_type app_binary = "application/octet-stream"
show_content_type app_gzip = "application/gzip"
show_content_type app_javascript = "application/javascript"
show_content_type app_json = "application/json"
show_content_type app_xml = "application/xml"
show_content_type app_pdf = "application/pdf"
show_content_type video_flv = "video/x-flv"
show_content_type video_mpeg = "video/mpeg"
show_content_type video_mp4 = "video/mp4"
show_content_type image_png = "image/png"
show_content_type image_jpeg = "image/jpeg"
show_content_type image_gif = "image/gif"
show_content_type image_bmp = "image/bmp"
show_content_type image_ico = "image/vnd.microsoft.icon"
show_content_type image_tiff = "image/tiff"
show_content_type image_svgxml = "image/svg+xml"
show_content_type mutlipart_form = "multipart/form-data"
show_content_type url_encoded_form = "application/x-www-form-urlencoded"
show_content_type unspecified = "application/unspecified"

-- `to_string(SupportedCompression)`.
unfoldable pub show_compression : SupportedCompression → String
show_compression no_compression = "Invalid Compression Value"
show_compression gzip = "GZip"
show_compression http_deflate = "Deflate"
show_compression ws_deflate = "WSDeflate"
show_compression brotli = "Brotli"

unfoldable pub to_encoding_value : SupportedCompression → String
to_encoding_value no_compression = ""
to_encoding_value gzip = "gzip"
to_encoding_value http_deflate = "deflate"
to_encoding_value ws_deflate = ""
to_encoding_value brotli = "br"

abbrev pub is : List ℕ → String → Bool
is extension name = same_text extension (codes name)

-- The type of an extension.
unfoldable pub content_type_of_extension : List ℕ → ContentType
unfolding same_text
content_type_of_extension e =
    if is e "html" || is e "htm"
    then text_html
    else if is e "css"
    then text_css
    else if is e "csv"
    then text_csv
    else if is e "txt"
    then text_plain
    else if is e "js"
    then app_javascript
    else if is e "json"
    then app_json
    else if is e "pdf"
    then app_pdf
    else if is e "xml"
    then app_xml
    else if is e "png"
    then image_png
    else if is e "jpg" || is e "jpeg"
    then image_jpeg
    else if is e "gif"
    then image_gif
    else if is e "bmp"
    then image_bmp
    else if is e "ico"
    then image_ico
    else if is e "tiff" || is e "tif"
    then image_tiff
    else if is e "svg"
    then image_svgxml
    else if is e "gz"
    then app_gzip
    else if is e "mp4"
    then video_mp4
    else if is e "flv"
    then video_flv
    else if is e "mpeg" || is e "mpg"
    then video_mpeg
    else unspecified

-- What stands behind the last dot: `rfind` and `substr`.
unfoldable pub after_last_dot : List ℕ → Option (List ℕ)
after_last_dot [] = none
after_last_dot (c ∷ s) = elim (after_last_dot s) [
  | some e ↦ some e
  | none ↦ if c == b'.' then some s else none
]

unfoldable pub get_content_type_from_file_path : List ℕ → ContentType
unfolding after_last_dot content_type_of_extension
get_content_type_from_file_path path = elim (after_last_dot path) [
  | none ↦ unspecified
  | some [] ↦ unspecified
  | some (c ∷ s) ↦ content_type_of_extension (c ∷ s)
]

after_dot-append :
    (stem s e : List ℕ) → after_last_dot s ≡ some e → after_last_dot (stem ++ s) ≡ some e
unfolding after_last_dot
after_dot-append [] s e h = h
after_dot-append (c ∷ stem) s e h = rw (after_dot-append stem s e h)

last_dot :
    (extension : List ℕ)
    → after_last_dot extension ≡ none
    → after_last_dot (b'.' ∷ extension) ≡ some extension
unfolding after_last_dot
last_dot extension h = rw (after_last_dot, h)

-- The type of a file depends only on what stands behind the last dot of its path.
pub content_type-append :
    (stem extension : List ℕ)
    → after_last_dot extension ≡ none
    → get_content_type_from_file_path (stem ++ b'.' ∷ extension)
      ≡ content_type_of_extension extension
unfolding content_type_of_extension same_text get_content_type_from_file_path
content_type-append stem [] h =
    rw (get_content_type_from_file_path, after_dot-append stem (b'.' ∷ []) [] (last_dot [] h))
content_type-append stem (c ∷ s) h = rw (
  get_content_type_from_file_path,
  after_dot-append stem (b'.' ∷ c ∷ s) (c ∷ s) (last_dot (c ∷ s) h),
)
