-- ===== src/Gateway/Server/Http.antt =====
-- The parts of net/http that gateway/internal/server uses: the request as it was parsed, and the
-- response writer with the statusWriter of server.go around it.
use kube_secret_gateway.Base.{
  ℕ, Bool, Text, ascii, List, [], ◌∷◌, ◌++◌, Option, if◌then◌else◌, ◌==◌, nat_eq, text_eq,
}

-- `content_length` is `none` where the length is unknown (-1 in Go); `basic_auth` is the result of
-- Request.BasicAuth; the two header fields are the values of X-Forwarded-For and If-None-Match.
pub record Request : Type 0 where
  pub method : Text
  pub escaped_path : Text
  pub force_query : Bool
  pub raw_query : Text
  pub content_length : Option ℕ
  pub transfer_encoding : List Text
  pub remote_addr : Text
  pub forwarded_for : List Text
  pub basic_auth : Option (Text × Text)
  pub if_none_match : List Text

-- The header map, the status (0 until one is written) and the bytes written.
pub record Response : Type 0 where
  pub header : List (Text × Text)
  pub status : ℕ
  pub body : Text

abbrev pub no_response : Response
no_response = record { header = []; status = 0; body = [] }

set : Text → Text → List (Text × Text) → List (Text × Text)
set k v [] = (k, v) ∷ []
set k v ((j, u) ∷ hs) = if k == j then (k, v) ∷ hs else (j, u) ∷ set k v hs

-- Header.Set
unfoldable pub set_header : Text → Text → Response → Response
unfolding set
set_header k v w = record w { header = set k v w.header }

-- statusWriter.WriteHeader: the first status counts.
unfoldable pub write_header : ℕ → Response → Response
write_header status w = if w.status == 0 then record w { status = status } else w

-- statusWriter.Write: without a status it is 200.
unfoldable pub write : Text → Response → Response
write bytes w = record w {
  status = if w.status == 0 then 200 else w.status;
  body = w.body ++ bytes;
}

-- http.StatusText, for the statuses that the package writes.
unfoldable pub status_text : ℕ → Text
unfolding ascii
status_text code =
    if code == 401
    then ascii "Unauthorized"
    else if code == 404
    then ascii "Not Found"
    else if code == 405
    then ascii "Method Not Allowed"
    else if code == 500
    then ascii "Internal Server Error"
    else if code == 503
    then ascii "Service Unavailable"
    else []

-- writeError
unfoldable pub write_error : ℕ → Response → Response
unfolding set_header write_header write ascii
write_error status w = write (status_text status ++ (10 ∷ [])) (
    write_header status (
      set_header (ascii "X-Content-Type-Options") (ascii "nosniff") (
        set_header (ascii "Cache-Control") (ascii "no-store")
          (set_header (ascii "Content-Type") (ascii "text/plain; charset=utf-8") w))))
