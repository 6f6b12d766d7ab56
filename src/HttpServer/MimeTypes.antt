-- ===== src/HttpServer/MimeTypes.antt =====
-- `mime_type` of deprecated/HttpServer.h and its table.
use fast_db.Prelude.{
  bytes_eq, false, Option, none, some, [], ◌∷◌, ◌++◌, Bytes, codes, drop, drop-append, ◌==◌, length,
  All, ◌≡◌, refl, arith,
}
use fast_db.Prelude.Assoc.{Assoc, find}
use fast_db.StringUtil.Search

abbrev pub mime_types : Assoc Bytes Bytes
mime_types =
    (codes ".htm", codes "text/html")
    ∷ (codes ".html", codes "text/html")
    ∷ (codes ".php", codes "text/html")
    ∷ (codes ".css", codes "text/css")
    ∷ (codes ".txt", codes "text/plain")
    ∷ (codes ".js", codes "application/javascript")
    ∷ (codes ".json", codes "application/json")
    ∷ (codes ".xml", codes "application/xml")
    ∷ (codes ".swf", codes "application/x-shockwave-flash")
    ∷ (codes ".flv", codes "video/x-flv")
    ∷ (codes ".png", codes "image/png")
    ∷ (codes ".jpe", codes "image/jpeg")
    ∷ (codes ".jpeg", codes "image/jpeg")
    ∷ (codes ".jpg", codes "image/jpeg")
    ∷ (codes ".gif", codes "image/gif")
    ∷ (codes ".bmp", codes "image/bmp")
    ∷ (codes ".ico", codes "image/vnd.microsoft.icon")
    ∷ (codes ".tiff", codes "image/tiff")
    ∷ (codes ".tif", codes "image/tiff")
    ∷ (codes ".svg", codes "image/svg+xml")
    ∷ (codes ".svgz", codes "image/svg+xml")
    ∷ []

unfoldable pub or_default : Option Bytes → Bytes
or_default none = codes "application/text"
or_default (some mime) = mime

-- Without a dot, `substr` throws `std::out_of_range`: `none`. The conditional makes a temporary `std::string`, and the returned
-- `string_view` is of that string, which is gone when the function has returned. The text here is the one that it had.
unfoldable pub mime_type : Bytes → Option Bytes
unfolding or_default
mime_type path = elim (Search.rfind (codes ".") path) [
  | none ↦ none
  | some i ↦ some (or_default (find (drop i path) mime_types))
]

-- No byte of the text is a dot.
abbrev pub NoDot : Bytes → Type 0
NoDot s = All (λ c. (c == b'.') ≡ false) s

rfind_absent : (ext : Bytes) → NoDot ext → Search.rfind (codes ".") ext ≡ none
unfolding Search.rfind Search.later Search.is_prefix
rfind_absent [] h = refl
rfind_absent (c ∷ ext) (h, all) = rw (rfind_absent ext all) (ground (arith, h))

rfind_dot :
    (front ext : Bytes)
    → NoDot ext
    → Search.rfind (codes ".") (front ++ (b'.' ∷ ext)) ≡ some (length front)
unfolding Search.rfind Search.later Search.is_prefix
rfind_dot [] ext h = rw (rfind_absent ext h) refl
rfind_dot (c ∷ front) ext h = rw (rfind_dot front ext h) refl

-- The text that `mime_type` takes for a path is the table's entry for what starts at the last dot, and application/text if there is none, whatever
-- stands before that dot; a path without a dot raises an exception.
pub mime_type_lem :
    (front ext : Bytes)
    → NoDot ext
    → (mime_type (front ++ (b'.' ∷ ext)) ≡ some (or_default (find (b'.' ∷ ext) mime_types)))
      × (mime_type ext ≡ none)
unfolding mime_type
mime_type_lem front ext h = (
  rw (rfind_dot front ext h, mime_type, drop-append front (b'.' ∷ ext)) refl,
  rw (rfind_absent ext h, mime_type) refl,
)
