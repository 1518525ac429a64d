-- ===== src/LogLines.antt =====
-- crates/rule/src/action/log.rs
use good_mitm.Prelude.{none, some, List, [], ◌∷◌, ◌++◌}
use good_mitm.Text.{Text, codes, to_decimal, pad_left_aligned}
use good_mitm.Env.{Env}
use good_mitm.Io.{Io, Request, Response, info, tell}

abbrev newline : Text
newline = 10 ∷ []

module _ (E : Env) where
  value_text : E.HeaderValue → Text
  value_text value = elim (E.value_to_str value) [
    | some v ↦ v
    | none ↦ codes "[u8]; " ++ to_decimal (E.value_len value)
  ]

  header_line : E.HeaderName × E.HeaderValue → Text
  unfolding value_text
  header_line (key, value) =
      9
      ∷ (pad_left_aligned 20 (E.name_as_str key ++ codes ":")
          ++ (value_text value ++ (13 ∷ 10 ∷ [])))

  header_formated : List (E.HeaderName × E.HeaderValue) → Text
  unfolding header_line
  header_formated [] = []
  header_formated (h ∷ more) = header_line h ++ header_formated more

  -- the text after the first line
  abbrev headers_part : E.HeaderMap → Text
  headers_part headers =
      newline ++ (codes "Headers:" ++ (newline ++ header_formated (E.headers_iter headers)))

  unfoldable pub req_lines : Request E → Text
  unfolding header_formated
  req_lines req =
      E.method_to_string req.method
      ++ (codes " " ++ (E.uri_to_string req.uri ++ headers_part req.headers))

  unfoldable pub res_lines : Response E → Text
  unfolding header_formated
  res_lines res =
      E.status_to_string res.status
      ++ (codes " " ++ (E.version_debug res.version ++ headers_part res.headers))

  unfoldable pub log_req : Request E → Io E (Unit {0})
  unfolding req_lines
  log_req req = tell (info (req_lines req))

  unfoldable pub log_res : Response E → Io E (Unit {0})
  unfolding res_lines
  log_res res = tell (info (res_lines res))
