-- ===== src/Workflow/Output.antt =====
-- What the workflow reads of a response.
use mathlib.Core.List.{append_assoc}
use demos_rework.Base.{◌≡◌, ◌≢◌, refl, [], ◌∷◌, ◌++◌, arith, All}
use demos_rework.Base.Text.{Text, text, replace}
use demos_rework.Base.Json.{Json}
use demos_rework.Workflow.{
  one_line, output_line, github_output, find_value, state_of, demo_url_of, message_names,
}

-- No line feed and no carriage return.
abbrev pub IsOneLine : Text → Type 0
IsOneLine t = All (λ c. (c ≢ b'\n') × (c ≢ b'\r')) t

one_line-IsOneLine : (t : Text) → IsOneLine (one_line t)
unfolding one_line replace
one_line-IsOneLine [] = tt
one_line-IsOneLine (c ∷ t) = ((ground arith, ground arith), one_line-IsOneLine t)

output_line-append :
    (key v rest : Text)
    → output_line key v ++ rest ≡ key ++ (text "=" ++ (one_line v ++ b'\n' ∷ rest))
unfolding output_line
output_line-append key v rest =
    rw (append_assoc key (text "=" ++ (one_line v ++ b'\n' ∷ [])) rest) (
      rw (append_assoc (text "=") (one_line v ++ b'\n' ∷ []) rest)
        (rw (append_assoc (one_line v) (b'\n' ∷ []) rest) refl))

-- Whatever the controller answers, the workflow's output file gets three lines, for state, demo_url
-- and message, none of whose values holds a line feed or a carriage return that could begin another.
pub github_output_lines :
    (result : Json)
    → (state url message : Text) × IsOneLine state
      × IsOneLine url
      × IsOneLine message
      × (github_output result
          ≡ text "state="
            ++ (state
                ++ b'\n'
                  ∷ (text "demo_url="
                      ++ (url ++ b'\n' ∷ (text "message=" ++ (message ++ b'\n' ∷ []))))))
unfolding github_output output_line text
github_output_lines result = (
  one_line (state_of result),
  one_line (demo_url_of result),
  one_line (find_value message_names result),
  one_line-IsOneLine (state_of result),
  one_line-IsOneLine (demo_url_of result),
  one_line-IsOneLine (find_value message_names result),
  rw
      (
        output_line-append (text "state") (state_of result),
        output_line-append (text "demo_url") (demo_url_of result),
      )
      refl,
)
