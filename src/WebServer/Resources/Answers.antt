-- ===== src/WebServer/Resources/Answers.antt =====
-- What the clients of WebServer/server_base.h are answered.
use c_project.WebServer.Handlers.Dots.{filter_path-strip_dots}
use mathlib.Core.Path.{subst}
use c_project.Prelude.{
  ℕ, ◌+◌, ◌-◌, ◌^◌, ◌≤◌, ◌<◌, ◌≡◌, refl, sym, ap, ◌∙◌, inl, inr, Bool, true, false, Bool-cases,
  Option, none, some, [], ◌∷◌, ◌++◌, ◌==◌, leb, length, take, arith, zero, suc,
}
use c_project.HttpServer.CString.{codes}
use c_project.WebServer.Parser.{Text, lf, cr, space, Request, has_char, equal_text, strip_prefix}
use c_project.WebServer.Parser.Lines.{Free, Free-uncons}
use c_project.WebServer.Parser.RoundTrip.{
  Fields, Printable, print_request, write_fields, parse_request-print,
}
use c_project.WebServer.Handlers.{slash, answer_ok, get_default, file_name, post_string}
use c_project.WebServer.Resources.{
  Resource, info, match_word, string, default, all_resources, match_path, or_else, find_resource,
  skip_slash, Answer, answered, call, call_found, respond, find_header, bytes_wanted, responds,
  read_content, with_length, process_parsed, process_request_and_respond, stoull, of_default,
  take_word,
}

-- Where the bytes that are there already are at most those declared, the rest is asked for; where
-- they are more, the difference wraps round.
pub bytes_wanted_lem :
    (declared additional : ℕ)
    → declared < 2 ^ 64
    → additional < 2 ^ 64
    → (additional ≤ declared → bytes_wanted declared additional ≡ declared - additional)
      × (declared < additional
          → bytes_wanted declared additional ≡ 2 ^ 64 - (additional - declared))
unfolding bytes_wanted
bytes_wanted_lem declared additional d a = (λ h. omega arith, λ h. omega arith)

take-append :
    (rest text : Text) (n : ℕ)
    → length rest ≤ n
    → rest ++ take (n - length rest) text ≡ take n (rest ++ text)
take-append [] text n h = ap (λ m. take m text) (omega arith)
take-append (c ∷ rest) text zero h = absurd (omega arith)
take-append (c ∷ rest) text (suc n) h =
    let less : suc n - suc (length rest) ≡ n - length rest = omega arith in
    ap (λ m. c ∷ (rest ++ take m text)) less
    ∙ ap (λ t. c ∷ t) (take-append rest text n (omega arith))

-- Where the length that is declared is below 2^64, is at least that of what the first read has left
-- in the buffer, and the socket gives the rest, the second read ends, and what is responded to is
-- the request with just so many of the bytes behind the header as its content.
pub read_content-length :
    (files : Text → Option Text) (socket rest : Text) (declared : ℕ) (r : Request)
    → declared < 2 ^ 64
    → length rest ≤ declared
    → declared ≤ length rest + length socket
    → read_content files socket (some declared) rest (length rest) r
      ≡ responds (respond files r (some (take declared (rest ++ socket))))
unfolding read_content
read_content-length files socket rest declared r few some_left there =
    let want = (bytes_wanted_lem declared (length rest) few (omega arith)).0 some_left in
    let enough : leb (bytes_wanted declared (length rest)) (length socket) ≡ true = ground arith in
    rw enough (
      ap (λ n. responds (respond files r (some (rest ++ take n socket)))) want
      ∙ ap (λ t. responds (respond files r (some t))) (take-append rest socket declared some_left))

abbrev pub IsAnswered : Answer → Type 0
IsAnswered a = (text : Text) × (a ≡ answered text)

module _ (files : Text → Option Text) (r : Request) (content : Option Text) where
  or_else-IsAnswered :
      (has_method : Bool) (resource : Resource) (o : Option Text) (rest : Option (Resource × Text))
      → ((word : Text) → has_method ≡ true → IsAnswered (call files resource word r content))
      → IsAnswered (call_found files rest r content)
      → IsAnswered (call_found files (or_else has_method resource o rest) r content)
  unfolding call_found
  or_else-IsAnswered has_method resource none rest h k = k
  or_else-IsAnswered true resource (some word) rest h k = h word refl
  or_else-IsAnswered false resource (some word) rest h k = k

  -- The resource behind the others takes what is left.
  get_default-some : (path : Text) → (text : Text) × (get_default files path ≡ some text)
  unfolding get_default file_name
  get_default-some path = rw (filter_path-strip_dots path) (_, refl)

  default-IsAnswered :
      (rest : Text)
      → match_path default r.path ≡ some rest
      → IsAnswered
          (call_found files (or_else true default (match_path default r.path) none) r content)
  unfolding call_found call
  default-IsAnswered rest e =
      let (text, found) = get_default-some rest in
      subst (λ o. IsAnswered (call_found files (or_else true default o none) r content)) (sym e)
        (text, ap of_default found)

skip_slash-Free : (sep : ℕ) (path : Text) → Free sep path → Free sep (skip_slash path)
skip_slash-Free sep [] h = h
skip_slash-Free sep (c ∷ path) h = elim (Bool-cases (c == slash)) [
  | inl is_slash ↦ rw is_slash (Free-uncons sep c path h).1
  | inr other ↦ rw other h
]

match_path-default :
    (path : Text) → Free cr path → Free lf path → match_path default path ≡ some (skip_slash path)
unfolding match_path
match_path-default path c l = rw (skip_slash-Free cr path c, skip_slash-Free lf path l) refl

-- A GET for a path of one line is answered.
pub respond_get :
    (files : Text → Option Text) (r : Request) (content : Option Text)
    → r.method ≡ codes "GET"
    → Free cr r.path
    → Free lf r.path
    → IsAnswered (respond files r content)
unfolding respond find_resource equal_text call
respond_get files r content e c l =
    subst (λ m. IsAnswered (call_found files (find_resource all_resources m r.path) r content))
      (sym e)
      (or_else-IsAnswered files r content true info (match_path info r.path) _ (λ word h. (_, refl))
        (or_else-IsAnswered files r content true match_word (match_path match_word r.path) _
          (λ word h. (_, refl))
          (or_else-IsAnswered files r content false string (match_path string r.path) _
            (λ word h. absurd (ground arith))
            (default-IsAnswered files r content (skip_slash r.path)
              (match_path-default r.path c l)))))

-- Every GET that is written out without a length, for a path with no space and no end of a line, a
-- version with no space and no line feed, and printable fields, is read and answered, whatever
-- files there are.
pub process_get :
    (files : Text → Option Text) (socket path version : Text) (fields : Fields)
    → Free space path
    → Free cr path
    → Free lf path
    → Free space version
    → Free lf version
    → Printable fields
    → find_header (codes "Content-Length") (write_fields [] fields) ≡ none
    → (text : Text) × (process_request_and_respond files socket
          (print_request (codes "GET") path version fields [])
          (length (print_request (codes "GET") path version fields []))
        ≡ responds (answered text))
unfolding process_request_and_respond process_parsed with_length has_char
process_get files socket path version fields s c l v w ok no_length =
    let request : Request = record {
      method = codes "GET";
      path = path;
      http_version = version;
      header = write_fields [] fields;
    } in
    let (text, answers) = respond_get files request none refl c l in
    let buffer = print_request (codes "GET") path version fields [] in
    (
      text,
      ap (process_parsed files socket (length buffer - length buffer))
            (parse_request-print (codes "GET") path version fields [] (refl, refl) (s, l) (v, w) ok)
          ∙ ap (λ o. with_length files socket o [] (length buffer - length buffer) request)
              no_length
          ∙ ap responds answers,
    )

-- A POST on the path of the string resource is answered with its content.
respond_post :
    (files : Text → Option Text) (r : Request) (content : Text)
    → r.method ≡ codes "POST"
    → r.path ≡ codes "/string"
    → respond files r (some content) ≡ answered (answer_ok content)
unfolding respond find_resource equal_text call call_found match_path take_word strip_prefix
    post_string
respond_post files r content m p = rw (m, p) refl

-- Every POST on `/string` that is written out with a `Content-Length` that `stoull` reads, a
-- version with no space and no line feed, and printable fields, is read, and answered with just the
-- content: as many of the bytes behind its header as are declared, those that the first read has
-- got and those that the second one gets from the socket. The length declared is at least that of
-- what the first read has got behind the header, the socket gives the rest, and the length has at
-- most ten digits.
pub process_post :
    (files : Text → Option Text) (socket body version value : Text) (fields : Fields)
    (declared transferred : ℕ)
    → Free space version
    → Free lf version
    → Printable fields
    → find_header (codes "Content-Length") (write_fields [] fields) ≡ some value
    → stoull value ≡ some declared
    → declared < 10 ^ 10
    → length body ≤ declared
    → declared ≤ length body + length socket
    → transferred + length body
      ≡ length (print_request (codes "POST") (codes "/string") version fields body)
    → process_request_and_respond files socket
        (print_request (codes "POST") (codes "/string") version fields body)
        transferred
      ≡ responds (answered (answer_ok (take declared (body ++ socket))))
unfolding process_request_and_respond process_parsed with_length has_char
process_post files socket body version value fields declared transferred v w ok there number few le
      enough total =
    let request : Request = record {
      method = codes "POST";
      path = codes "/string";
      http_version = version;
      header = write_fields [] fields;
    } in
    let buffer = print_request (codes "POST") (codes "/string") version fields body in
    let behind : length buffer - transferred ≡ length body = omega arith in
    ap (process_parsed files socket (length buffer - transferred)) (
      parse_request-print (codes "POST") (codes "/string") version fields body (refl, refl)
        (refl, refl) (v, w) ok)
    ∙ ap (λ o. with_length files socket o body (length buffer - transferred) request) there
    ∙ ap (λ o. read_content files socket o body (length buffer - transferred) request) number
    ∙ ap (λ n. read_content files socket (some declared) body n request) behind
    ∙ read_content-length files socket body declared request (omega arith) le enough
    ∙ ap responds (respond_post files request (take declared (body ++ socket)) refl refl)
