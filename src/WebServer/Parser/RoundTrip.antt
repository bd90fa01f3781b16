-- ===== src/WebServer/Parser/RoundTrip.antt =====
-- A request that a client writes out is the one that `parse_request` reads.
use c_project.Prelude.{
  ℕ, zero, suc, ◌<◌, ◌≡◌, refl, ap, ◌∙◌, List, [], ◌∷◌, ◌++◌, length, length-append, arith,
}
use c_project.WebServer.Parser.{
  Text, lf, cr, space, colon, http_slash, pop_back, match_request_line, match_header, has_char,
  Request, parsed, read_headers, set_header, of_match, on_request_line, on_first_line,
  parse_request, split_at,
}
use c_project.WebServer.Parser.Lines.{
  Free, getline-append, pop_back-append, match_request_line-append, match_header-append,
  read_headers-line, after_line, Free-append, Free-cons,
}

-- A request as a client writes it, with the lines of its header.
abbrev pub Fields : Type 0
Fields = List (Text × Text)

abbrev pub print_fields : Fields → (body : Text) → Text
print_fields [] body = cr ∷ lf ∷ body
print_fields ((key, value) ∷ fields) body =
    (key ++ colon ∷ space ∷ value) ++ cr ∷ lf ∷ print_fields fields body

abbrev pub request_line : (method path version : Text) → Text
request_line method path version = method ++ space ∷ (path ++ space ∷ (http_slash ++ version))

abbrev pub print_request : (method path version : Text) → Fields → (body : Text) → Text
print_request method path version fields body =
    request_line method path version ++ cr ∷ lf ∷ print_fields fields body

-- No key has a colon or an end of a line, and no value an end of a line.
abbrev pub Printable : Fields → Type 0
Printable [] = Unit
Printable ((key, value) ∷ fields) =
    Free colon key × Free lf key × Free cr value × Free lf value × Printable fields

-- The fields written into a header, one after the other.
abbrev pub write_fields : Fields → Fields → Fields
write_fields header [] = header
write_fields header ((key, value) ∷ fields) = write_fields (set_header key value header) fields

read_headers-print :
    (fuel : ℕ) (fields : Fields) (body : Text) (r : Request)
    → Printable fields
    → length fields < fuel
    → read_headers fuel (print_fields fields body) r
      ≡ parsed (record r { header = write_fields r.header fields }) body
unfolding has_char match_header split_at
read_headers-print zero fields body r p h = absurd (omega arith)
read_headers-print (suc fuel) [] body r p h = read_headers-line fuel [] body r refl
read_headers-print (suc fuel) ((key, value) ∷ fields) body r (k, l, v, w, p) h =
    read_headers-line fuel (key ++ colon ∷ space ∷ value) (print_fields fields body) r (
      Free-append lf key (colon ∷ space ∷ value) l
        (Free-cons lf colon (space ∷ value) refl (Free-cons lf space value refl w)))
    ∙ ap (λ o. after_line fuel (of_match o) (print_fields fields body) r)
        (match_header-append key value k v w)
    ∙ read_headers-print fuel fields body (record r { header = set_header key value r.header }) p
        (omega arith)

length-print_fields :
    (fields : Fields) (body : Text) → length fields < length (print_fields fields body)
length-print_fields [] body = omega arith
length-print_fields ((key, value) ∷ fields) body =
    let l = length-append (key ++ colon ∷ space ∷ value) (cr ∷ lf ∷ print_fields fields body) in
    let m = length-print_fields fields body in omega arith

on_first_line-append :
    (line rest : Text)
    → on_first_line (line ++ cr ∷ [], rest) ≡ on_request_line (match_request_line line) rest
unfolding on_first_line pop_back
on_first_line-append [] rest = refl
on_first_line-append (c ∷ line) rest =
    ap (λ l. on_request_line (match_request_line l) rest) (pop_back-append (c ∷ line) cr)

-- A request that is written out, with its fields as lines `key: value`, is read again as it was:
-- with its method, path and version, the fields written into the header one after the other, and
-- the body left in the buffer; where method, path and version have no space and no line feed, the
-- keys no colon and no line feed, and the values no end of a line.
pub parse_request-print :
    (method path version : Text) (fields : Fields) (body : Text)
    → Free space method × Free lf method
    → Free space path × Free lf path
    → Free space version × Free lf version
    → Printable fields
    → parse_request (print_request method path version fields body)
      ≡ parsed
          (record {
            method = method;
            path = path;
            http_version = version;
            header = write_fields [] fields;
          })
          body
unfolding parse_request on_request_line has_char
parse_request-print method path version fields body (m, ml) (p, pl) (v, vl) ok =
    let line = request_line method path version in
    let rest = print_fields fields body in
    let line_free : Free lf line =
      Free-append lf method (space ∷ (path ++ space ∷ (http_slash ++ version))) ml (
        Free-cons lf space (path ++ space ∷ (http_slash ++ version)) refl (
          Free-append lf path (space ∷ (http_slash ++ version)) pl (
            Free-cons lf space (http_slash ++ version) refl
              (Free-append lf http_slash version refl vl)))) in
    ap on_first_line (getline-append line rest line_free)
    ∙ on_first_line-append line rest
    ∙ ap (λ o. on_request_line o rest) (match_request_line-append method path version m p v)
    ∙ read_headers-print (length rest) fields body _ ok (length-print_fields fields body)
