-- ===== src/WebServer/Resources.antt =====
-- `respond` and `process_request_and_respond` of WebServer/server_base.h, on the resources of
-- WebServer/handler.h, with the regular expressions of their paths written out. What the socket
-- gives behind the first read is an argument, and so are the files.
pub mod Answers
use c_project.Prelude.{
  ℕ, zero, suc, ◌+◌, ◌-◌, ◌*◌, ◌%◌, ◌^◌, Bool, true, false, ◌&&◌, ◌||◌, not, Option, none, some,
  List, [], ◌∷◌, ◌++◌, ◌==◌, ltb, leb, if◌then◌else◌, length, take,
}
use c_project.Prelude.Options.{◌>>=◌}
use c_project.HttpServer.CString.{codes}
use c_project.WebServer.Parser.{
  Text, lf, cr, Request, Parsed, parsed, popped_empty, ran_out, strip_prefix, has_char, if_without,
  equal_text, parse_request,
}
use c_project.WebServer.Handlers.{slash, answer_ok, get_default, get_info, post_string}

-- The entries of `resource`, which is ordered by its keys, and of `default_resource`.
pub data Resource : Type 0 where
  info : Resource
  match_word : Resource
  string : Resource
  default : Resource

-- The order in which `start` collects them.
abbrev pub all_resources : List Resource
all_resources = info ∷ match_word ∷ string ∷ default ∷ []

-- `/?$`, behind what `path_match[1]` is.
abbrev pub optional_slash : Text → Text → Option Text
optional_slash word [] = some word
optional_slash word (c ∷ []) = if c == slash then some word else none
optional_slash word (c ∷ d ∷ text) = none

abbrev pub between : ℕ → ℕ → ℕ → Bool
between a b c = leb a c && leb c b

-- `[0-9a-zA-Z]`
abbrev pub is_alnum : ℕ → Bool
is_alnum c = between 48 57 c || (between 97 122 c || between 65 90 c)

-- The longest word in front, and the rest.
unfoldable pub take_word : Text → Text × Text
take_word [] = ([], [])
take_word (c ∷ text) =
    let rest = take_word text in if is_alnum c then (c ∷ rest.0, rest.1) else ([], c ∷ text)

abbrev pub match_rest : Text × Text → Option Text
match_rest ([], rest) = none
match_rest (c ∷ word, rest) = optional_slash (c ∷ word) rest

abbrev pub skip_slash : Text → Text
skip_slash [] = []
skip_slash (c ∷ text) = if c == slash then text else c ∷ text

-- `regex_match` of the path, with `path_match[1]`.
unfoldable pub match_path : Resource → Text → Option Text
match_path info path = do rest ← strip_prefix (codes "/info") path; optional_slash [] rest
match_path match_word path = do
  rest ← strip_prefix (codes "/match/") path
  match_rest (take_word rest)
match_path string path = do rest ← strip_prefix (codes "/string") path; optional_slash [] rest
match_path default path = do rest ← if_without cr (skip_slash path); if_without lf rest

abbrev pub method_of : Resource → Text
method_of info = codes "GET"
method_of match_word = codes "GET"
method_of string = codes "POST"
method_of default = codes "GET"

abbrev pub or_else :
    Bool → Resource → Option Text → Option (Resource × Text) → Option (Resource × Text)
or_else has_method resource none rest = rest
or_else has_method resource (some word) rest = if has_method then some (resource, word) else rest

-- The first resource that the path matches and that has the method.
unfoldable pub find_resource : List Resource → (method path : Text) → Option (Resource × Text)
find_resource [] method path = none
find_resource (resource ∷ resources) method path =
    or_else (equal_text (method_of resource) method) resource (match_path resource path)
      (find_resource resources method path)

-- What the client gets: an answer, none, or the server reads through a null `content`.
pub data Answer : Type 0 where
  answered : Text → Answer
  not_answered : Answer
  null_content : Answer
  -- The loop over the dots of the path goes on.
  unending : Answer

abbrev pub of_content : Option Text → Answer
of_content none = null_content
of_content (some text) = answered text

abbrev pub of_default : Option Text → Answer
of_default none = unending
of_default (some text) = answered text

module _ (files : Text → Option Text) where
  unfoldable pub call : Resource → (word : Text) → Request → (content : Option Text) → Answer
  call info word r content = answered (get_info r)
  call match_word word r content = answered (answer_ok word)
  call string word r content = of_content (post_string content)
  call default word r content = of_default (get_default files word)

  unfoldable pub call_found : Option (Resource × Text) → Request → (content : Option Text) → Answer
  call_found none r content = not_answered
  call_found (some (resource, word)) r content = call resource word r content

  unfoldable pub respond : Request → (content : Option Text) → Answer
  respond r content = call_found (find_resource all_resources r.method r.path) r content

-- `header.count (key)` and `header[key]`.
unfoldable pub find_header : (key : Text) → List (Text × Text) → Option Text
find_header key [] = none
find_header key ((k, v) ∷ header) = if equal_text k key then some v else find_header key header

abbrev pub is_digit : ℕ → Bool
is_digit c = between 48 57 c

unfoldable pub digits : ℕ → Text → ℕ
digits n [] = n
digits n (c ∷ text) = if is_digit c then digits (n * 10 + (c - 48)) text else n

abbrev pub in_range : ℕ → Option ℕ
in_range n = if ltb n (2 ^ 64) then some n else none

-- isspace
abbrev pub is_space : ℕ → Bool
is_space c = c == 32 || between 9 13 c

unfoldable pub skip_space : Text → Text
skip_space [] = []
skip_space (c ∷ text) = let rest = skip_space text in if is_space c then rest else c ∷ text

-- The number at the front of a text that begins with a digit; `none` is the exception, for no digit
-- as for a number past the range.
abbrev pub magnitude : Text → Option ℕ
magnitude [] = none
magnitude (c ∷ text) = if is_digit c then in_range (digits 0 (c ∷ text)) else none

-- A number behind a minus sign wraps round.
abbrev pub negated : Option ℕ → Option ℕ
negated none = none
negated (some n) = some ((2 ^ 64 - n) % 2 ^ 64)

abbrev pub signed : Text → Option ℕ
signed [] = none
signed (c ∷ text) =
    if c == b'-'
    then negated (magnitude text)
    else if c == b'+'
    then magnitude text
    else magnitude (c ∷ text)

-- `stoull`: white space and a sign may stand in front.
unfoldable pub stoull : Text → Option ℕ
unfolding skip_space digits
stoull text = signed (skip_space text)

-- `stoull (...) - num_additional_bytes`, in `size_t`.
unfoldable pub bytes_wanted : (declared additional : ℕ) → ℕ
bytes_wanted declared additional = (declared + 2 ^ 64 - additional) % 2 ^ 64

-- What a request comes to.
pub data Outcome : Type 0 where
  responds : Answer → Outcome
  -- `async_read` waits for more bytes than the socket gives.
  waits : Outcome
  -- `stoull` throws.
  throws : Outcome
  -- `pop_back` on an empty line.
  undefined : Outcome
  -- `getline` at the end of the buffer.
  read_past : Outcome

module _ (files : Text → Option Text) (socket : Text) where
  -- The second read, and the content: what the first one has left in the buffer, and what it gets.
  unfoldable pub read_content : Option ℕ → (rest : Text) → (additional : ℕ) → Request → Outcome
  read_content none rest additional r = throws
  read_content (some declared) rest additional r =
      let wanted = bytes_wanted declared additional in
      if leb wanted (length socket)
      then responds (respond files r (some (rest ++ take wanted socket)))
      else waits

  unfoldable pub with_length : Option Text → (rest : Text) → (additional : ℕ) → Request → Outcome
  with_length none rest additional r = responds (respond files r none)
  with_length (some value) rest additional r = read_content (stoull value) rest additional r

  unfoldable pub process_parsed : (additional : ℕ) → Parsed → Outcome
  process_parsed additional (parsed r rest) =
      with_length (find_header (codes "Content-Length") r.header) rest additional r
  process_parsed additional popped_empty = undefined
  process_parsed additional ran_out = read_past

  -- The callback of `async_read_until`: `bytes_transferred` is where the empty line ends.
  unfoldable pub process_request_and_respond :
      (read_buffer : Text) → (bytes_transferred : ℕ) → Outcome
  process_request_and_respond read_buffer bytes_transferred =
      process_parsed (length read_buffer - bytes_transferred) (parse_request read_buffer)
