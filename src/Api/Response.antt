-- ===== src/Api/Response.antt =====
-- src/demo_controller/api.py: proxy, from the demo's response to the visitor's.
use demos_rework.Base.{ℕ, Bool, ◌||◌, List, [], ◌∷◌, ◌++◌, if◌then◌else◌, length}
use demos_rework.Base.Text.{Text, text, text_eq, lower}
use demos_rework.Base.Decimal.{str}
use demos_rework.Models.Config.{Dict}

-- What the demo answered.
pub record Answer : Type 0 where
  pub status : ℕ
  pub headers : Dict
  pub content : List ℕ

unfoldable pub is_dropped : Text → Bool
is_dropped key =
    text_eq (lower key) (text "content-length")
    || text_eq (lower key) (text "connection")
    || text_eq (lower key) (text "transfer-encoding")

unfoldable pub kept_headers : Dict → Dict
kept_headers [] = []
kept_headers ((key, v) ∷ d) =
    let rest = kept_headers d in if is_dropped key then rest else (key, v) ∷ rest

-- proxy, behind `client.send`: the response to the visitor
unfoldable pub respond : Answer → Answer
unfolding kept_headers
respond a = record a {
  headers = kept_headers a.headers ++ (text "content-length", str (length a.content)) ∷ [];
}

-- All the values of a header, in order.
unfoldable pub values : Text → Dict → List Text
values name [] = []
values name ((key, v) ∷ d) =
    let rest = values name d in if text_eq (lower key) name then v ∷ rest else rest
