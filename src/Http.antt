-- ===== src/Http.antt =====
-- What the handlers read of an `http.Request` and how they answer it (net/http and go-chi/render).
pub mod Helpers
use cel_service.Base.Text.{Str}
use cel_service.Base.{ℕ, Option}

-- What `render.GetRequestContentType` tells apart.
pub data ContentType : Type 0 where
  json_type xml_type other_type : ContentType

-- `query` is `r.URL.Query().Get`, `header` is `r.Header.Get`, and `cookie` is the value that
-- `r.Cookie` finds, and `content` is what the body reads.
pub record Request : Type 0 where
  pub method : Str
  pub path : Str
  pub header : Str → Str
  pub query : Str → Str
  pub cookie : Str → Option Str
  pub content_type : ContentType
  pub content : Str

-- A status and a body.
pub record Response (B : Type 0) : Type 0 where
  pub status : ℕ
  pub body : B
