-- ===== src/Http.antt =====
-- HTTP requests and responses, as FastAPI hands them to the handlers and takes them back. Header
-- names are in lower case, which is how Starlette compares them.
use demos_rework.Base.{ℕ, none, some, List}
use demos_rework.Base.Text.{Text}
use demos_rework.Models.Config.{Dict, lookup}

pub record Request : Type 0 where
  pub method : Text
  -- request.url.path and request.url.query
  pub path : Text
  pub query : Text
  pub headers : Dict
  pub body : List ℕ

-- request.headers.get(name, default)
unfoldable pub header : Text → Text → Request → Text
header name default request = elim (lookup name request.headers) [ none ↦ default | some v ↦ v ]
