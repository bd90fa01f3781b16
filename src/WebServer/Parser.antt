-- ===== src/WebServer/Parser.antt =====
-- `parse_request` of WebServer/server_base.h on a text, with `getline` and the two regular
-- expressions written out. Characters are numbers.
pub mod Lines
pub mod RoundTrip
pub mod Ends
use c_project.Prelude.{
  ℕ, zero, suc, Bool, true, false, Option, none, some, List, [], ◌∷◌, ◌==◌, if◌then◌else◌, length,
}
use c_project.Prelude.Options.{◌>>=◌}

abbrev pub Text : Type 0
Text = List ℕ

abbrev pub lf : ℕ
lf = 10

abbrev pub cr : ℕ
cr = 13

abbrev pub space : ℕ
space = 32

abbrev pub colon : ℕ
colon = 58

pub record Request : Type 0 where
  pub method : Text
  pub path : Text
  pub http_version : Text
  pub header : List (Text × Text)

abbrev pub new_request : Request
new_request = record { method = []; path = []; http_version = []; header = [] }

-- What a parse comes to: the request with the text behind it, `pop_back` on an empty line, which is
-- undefined, or the end of the text.
pub data Parsed : Type 0 where
  parsed : Request → (rest : Text) → Parsed
  popped_empty : Parsed
  ran_out : Parsed

-- The line, and what stands behind its line feed.
unfoldable pub getline : Text → Text × Text
getline [] = ([], [])
getline (c ∷ stream) =
    let rest = getline stream in if c == lf then ([], stream) else (c ∷ rest.0, rest.1)

-- All but the last character.
unfoldable pub pop_back : Text → Text
pop_back [] = []
pop_back (c ∷ []) = []
pop_back (c ∷ d ∷ line) = c ∷ pop_back (d ∷ line)

-- The text before the first of a character, and that behind it.
unfoldable pub split_at : ℕ → Text → Option (Text × Text)
split_at sep [] = none
split_at sep (c ∷ text) =
    let rest = split_at sep text in
    if c == sep then some ([], text) else (do parts ← rest; some (c ∷ parts.0, parts.1))

unfoldable pub strip_prefix : (prefix : Text) → Text → Option Text
strip_prefix [] text = some text
strip_prefix (p ∷ prefix) [] = none
strip_prefix (p ∷ prefix) (c ∷ text) = if p == c then strip_prefix prefix text else none

unfoldable pub has_char : ℕ → Text → Bool
has_char sep [] = false
has_char sep (c ∷ text) = if c == sep then true else has_char sep text

abbrev pub http_slash : Text
http_slash = 72 ∷ 84 ∷ 84 ∷ 80 ∷ 47 ∷ []

abbrev pub if_without : ℕ → Text → Option Text
if_without sep text = if has_char sep text then none else some text

-- `^([^ ]*) ([^ ]*) HTTP/([^ ]*)$`
unfoldable pub match_request_line : Text → Option (Text × Text × Text)
match_request_line line = do
  first ← split_at space line
  second ← split_at space first.1
  version ← strip_prefix http_slash second.1
  version ← if_without space version
  some (first.0, second.0, version)

abbrev pub skip_space : Text → Text
skip_space [] = []
skip_space (c ∷ text) = if c == space then text else c ∷ text

-- `^([^:]*): ?(.*)$`, where `.` is no end of a line.
unfoldable pub match_header : Text → Option (Text × Text)
match_header line = do
  parts ← split_at colon line
  value ← if_without cr (skip_space parts.1)
  value ← if_without lf value
  some (parts.0, value)

unfoldable pub equal_text : Text → Text → Bool
equal_text [] [] = true
equal_text [] (d ∷ t) = false
equal_text (c ∷ s) [] = false
equal_text (c ∷ s) (d ∷ t) = if c == d then equal_text s t else false

-- `request.header[key] = value`
unfoldable pub set_header : Text → Text → List (Text × Text) → List (Text × Text)
set_header key value [] = (key, value) ∷ []
set_header key value ((k, v) ∷ header) =
    if equal_text k key then (key, value) ∷ header else (k, v) ∷ set_header key value header

-- What a line of the header is: `pop_back` on an empty one, no match, or a match.
pub data HeaderLine : Type 0 where
  no_line : HeaderLine
  no_match : HeaderLine
  pair : (key value : Text) → HeaderLine

abbrev pub of_match : Option (Text × Text) → HeaderLine
of_match none = no_match
of_match (some (key, value)) = pair key value

unfoldable pub header_line : Text → HeaderLine
header_line [] = no_line
header_line (c ∷ line) = of_match (match_header (pop_back (c ∷ line)))

abbrev pub add_header : Text → Text → Request → Request
add_header key value r = record r { header = set_header key value r.header }

-- The `do` loop. A line takes one character at least, so that the length of the text is enough fuel.
unfoldable pub read_headers : (fuel : ℕ) → Text → Request → Parsed
read_headers zero stream r = ran_out
read_headers (suc fuel) [] r = ran_out
read_headers (suc fuel) (c ∷ stream) r =
    let line = getline (c ∷ stream) in
    elim (header_line line.0) [
      | no_line ↦ popped_empty
      | no_match ↦ parsed r line.1
      | pair key value ↦ read_headers fuel line.1 (add_header key value r)
    ]

unfoldable pub on_request_line : Option (Text × Text × Text) → Text → Parsed
on_request_line none rest = parsed new_request rest
on_request_line (some (method, path, version)) rest =
    read_headers (length rest) rest
      (record new_request { method = method; path = path; http_version = version })

unfoldable pub on_first_line : Text × Text → Parsed
on_first_line ([], rest) = popped_empty
on_first_line (c ∷ line, rest) = on_request_line (match_request_line (pop_back (c ∷ line))) rest

unfoldable pub parse_request : Text → Parsed
parse_request stream = on_first_line (getline stream)
