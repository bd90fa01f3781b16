-- ===== src/WebServer/Tests.antt =====
-- Requests to the web server of WebServer/.
use c_project.Prelude.{
  ◌≡◌, ◌≢◌, refl, Option, none, some, [], ◌∷◌, ◌++◌, length, arith, take, ◌^◌, ◌-◌,
}
use c_project.HttpServer.CString.{codes}
use c_project.WebServer.Parser.{
  Text, lf, cr, Request, parsed, popped_empty, ran_out, parse_request, getline, pop_back, split_at,
  strip_prefix, has_char, match_request_line, match_header, header_line, read_headers,
  on_request_line, on_first_line, set_header, equal_text,
}
use c_project.WebServer.Parser.RoundTrip.{Fields, print_request, write_fields, parse_request-print}
use c_project.WebServer.Parser.Ends.{parse_request-Ends}
use c_project.WebServer.Handlers.{
  filter_path, filter_loop, find, rfind, erase, file_name, ends_with, post_string, answer_ok,
}
use c_project.WebServer.Handlers.Search.{strip_dots}
use c_project.WebServer.Handlers.Dots.{filter_path-strip_dots}
use c_project.WebServer.Resources.{
  match_path, find_resource, take_word, answered, not_answered, null_content, call, call_found,
  respond, find_header, bytes_wanted, responds, waits, read_content, process_request_and_respond,
  stoull, digits,
}
use c_project.WebServer.Resources.Answers.{process_get, process_post}

abbrev fields : Fields
fields = (codes "Host", codes "a") ∷ (codes "Accept", codes "b c") ∷ []

abbrev get : Request
get = record {
  method = codes "GET";
  path = codes "/a.html";
  http_version = codes "1.1";
  header = [];
}

abbrev no_files : Text → Option Text
no_files name = none

parse_request-print_example :
    parse_request (print_request (codes "GET") (codes "/a.html") (codes "1.1") fields (codes "x"))
    ≡ parsed (record get { header = write_fields [] fields }) (codes "x")
unfolding has_char
parse_request-print_example =
    parse_request-print (codes "GET") (codes "/a.html") (codes "1.1") fields (codes "x")
      (refl, refl) (refl, refl) (refl, refl) (refl, refl, refl, refl, (refl, refl, refl, refl, tt))

parse_request-Ends_example : parse_request (codes "x" ++ cr ∷ lf ∷ cr ∷ lf ∷ []) ≢ ran_out
parse_request-Ends_example = parse_request-Ends (codes "x") []

-- A line feed alone makes an empty line.
bare_line_feed : parse_request (codes "GET / HTTP/1.1\r\n\n\r\n\r\n") ≡ popped_empty
unfolding parse_request on_first_line on_request_line read_headers header_line match_request_line
    match_header getline pop_back split_at strip_prefix has_char
bare_line_feed = refl

up_and_out : filter_path (codes "../../a.html") ≡ some (codes "//a.html")
unfolding filter_path filter_loop find rfind erase
up_and_out = refl

filter_path-strip_dots_example :
    filter_path (codes "../a.html") ≡ some (strip_dots (codes "../a.html"))
filter_path-strip_dots_example = filter_path-strip_dots (codes "../a.html")

index_of_folder : file_name (codes "a") ≡ some (codes "Web/a/index.html")
unfolding file_name ends_with filter_path filter_loop find rfind erase has_char
index_of_folder = refl

-- A content that is there already, and longer than declared.
short_length : read_content no_files (codes "cde") (some 1) (codes "ab") 2 get ≡ waits
unfolding read_content bytes_wanted
short_length = refl

post_without_length :
    respond no_files (record get { method = codes "POST"; path = codes "/string" }) none
    ≡ null_content
unfolding respond call_found find_resource equal_text match_path take_word strip_prefix call
    post_string
post_without_length = refl

other_method : respond no_files (record get { method = codes "PUT" }) none ≡ not_answered
unfolding respond call_found find_resource equal_text match_path take_word strip_prefix has_char
other_method = refl

process_get_example :
    (text : Text) × (process_request_and_respond no_files []
        (print_request (codes "GET") (codes "/a") (codes "1.1") fields [])
        (length (print_request (codes "GET") (codes "/a") (codes "1.1") fields []))
      ≡ responds (answered text))
unfolding has_char find_header set_header equal_text
process_get_example =
    process_get no_files [] (codes "/a") (codes "1.1") fields refl refl refl refl refl
      (refl, refl, refl, refl, (refl, refl, refl, refl, tt)) refl

signed_length : stoull (codes " +5x") ≡ some 5
unfolding stoull digits
signed_length = refl

negative_length : stoull (codes "-1") ≡ some (2 ^ 64 - 1)
unfolding stoull digits
negative_length = refl

-- Two of the five bytes of the content come with the header.
abbrev with_content : Fields
with_content = (codes "Host", codes "a") ∷ (codes "Content-Length", codes "5") ∷ []

process_post_example :
    process_request_and_respond no_files
      (codes "cdef")
      (print_request (codes "POST") (codes "/string") (codes "1.1") with_content (codes "ab"))
      53
    ≡ responds (answered (answer_ok (take 5 (codes "ab" ++ codes "cdef"))))
unfolding has_char find_header set_header equal_text stoull digits
process_post_example =
    process_post no_files (codes "cdef") (codes "ab") (codes "1.1") (codes "5") with_content 5 53
      refl refl (refl, refl, refl, refl, (refl, refl, refl, refl, tt)) refl refl (omega arith)
      (omega arith) (omega arith) refl
