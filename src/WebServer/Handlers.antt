-- ===== src/WebServer/Handlers.antt =====
-- The resources of WebServer/handler.h: what `start_server` puts under each path. The files are a
-- parameter: a name is that of a file with its content, or of none.
-- `none` of `post_string` is a read through a null `content`.
pub mod Search
pub mod Dots
use c_project.Prelude.{
  ℕ, zero, suc, ◌+◌, ◌-◌, Bool, true, false, Option, none, some, List, [], ◌∷◌, ◌++◌, ◌==◌, not,
  if◌then◌else◌, length,
}
use c_project.Prelude.Options.{◌>>=◌}
use c_project.HttpServer.CString.{codes}
use c_project.HttpServer.Response.{decimal}
use c_project.WebServer.Parser.{Text, Request, space, has_char}

abbrev pub dot : ℕ
dot = 46

abbrev pub slash : ℕ
slash = 47

abbrev pub next_pos : Option ℕ → Option ℕ
next_pos none = none
next_pos (some pos) = some (suc pos)

-- `text.find (sep, from)`, `none` for npos.
unfoldable pub find : (sep from : ℕ) → Text → Option ℕ
find sep zero [] = none
find sep zero (c ∷ text) =
    let rest = find sep zero text in if c == sep then some 0 else next_pos rest
find sep (suc from) [] = none
find sep (suc from) (c ∷ text) = next_pos (find sep from text)

abbrev pub last_of : Bool → Option ℕ → Option ℕ
last_of here none = if here then some 0 else none
last_of here (some pos) = some (suc pos)

unfoldable pub rfind : (sep : ℕ) → Text → Option ℕ
rfind sep [] = none
rfind sep (c ∷ text) = last_of (c == sep) (rfind sep text)

-- `text.erase (pos, 1)`
unfoldable pub erase : ℕ → Text → Text
erase pos [] = []
erase zero (c ∷ text) = text
erase (suc pos) (c ∷ text) = c ∷ erase pos text

abbrev pub is_pos : ℕ → Option ℕ → Bool
is_pos pos none = false
is_pos pos (some last_pos) = pos == last_pos

abbrev pub pred_pos : Option ℕ → Option ℕ
pred_pos none = none
pred_pos (some last_pos) = some (last_pos - 1)

-- The `while` on the path, on fuel, `none` where it is out: a round takes one dot away, or is the
-- last.
unfoldable pub filter_loop : (fuel current_pos : ℕ) → (last_pos : Option ℕ) → Text → Option Text
filter_loop zero current_pos last_pos path = none
filter_loop (suc fuel) current_pos last_pos path = elim (find dot current_pos path) [
  | none ↦ some path
  | some pos ↦
      let rest = filter_loop fuel pos (pred_pos last_pos) (erase pos path) in
      if is_pos pos last_pos then some path else rest
]

unfoldable pub filter_path : Text → Option Text
filter_path path = filter_loop (suc (length path)) 0 (rfind dot path) path

unfoldable pub ends_with : ℕ → Text → Bool
ends_with c [] = false
ends_with c (d ∷ []) = d == c
ends_with c (d ∷ e ∷ text) = ends_with c (e ∷ text)

-- The name of the file: `index.html` in a folder, where the path has no dot.
unfoldable pub file_name : Text → Option Text
file_name path = do
  path ← filter_path path
  let filename = codes "Web/" ++ path
  some (
      if has_char dot filename
      then filename
      else ((if ends_with slash filename then filename else filename ++ slash ∷ [])
          ++ codes "index.html"))

abbrev pub crlf_crlf : Text
crlf_crlf = codes "\r\n\r\n"

-- The answers of the resources on paths of their own.
unfoldable pub answer_ok : Text → Text
answer_ok content =
    codes "HTTP/1.1 200 OK\r\nContent-Length: "
    ++ (decimal (length content) ++ (crlf_crlf ++ content))

abbrev pub answer_opened : (filename : Text) → Option Text → Text
answer_opened filename none =
    let content = codes "Could not open file " ++ filename in
    codes "HTTP/1.1 400 Bad Request\r\nContent_Length: "
    ++ (decimal (length content) ++ (crlf_crlf ++ content))
answer_opened filename (some content) =
    codes "HTTP/1.1 200 OK\r\nContent_Length: "
    ++ (decimal (length content) ++ (crlf_crlf ++ content))

module _ (files : Text → Option Text) where
  -- The default resource, on the part of the path that its regular expression takes.
  unfoldable pub get_default : Text → Option Text
  get_default path = do filename ← file_name path; some (answer_opened filename (files filename))

-- The answer to a POST on `/string`: the content, which is null where no length was given.
unfoldable pub post_string : (content : Option Text) → Option Text
post_string none = none
post_string (some content) = some (answer_ok content)

pub print_header : List (Text × Text) → Text
print_header [] = []
print_header ((key, value) ∷ header) =
    key ++ (codes ": " ++ (value ++ (codes "<br>" ++ print_header header)))

-- The answer to a GET on `/info`, the header in the order of the model's list.
unfoldable pub get_info : Request → Text
get_info r = answer_ok (
    codes "<h1>Request:</h1>"
    ++ (r.method
        ++ (space
            ∷ (r.path
                ++ (codes " HTTP/"
                    ++ (r.http_version ++ (codes "<br>" ++ print_header r.header)))))))
