-- ===== src/HttpServer/Tests.antt =====
-- Runs of HttpServer at concrete inputs.
use c_project.HttpServer.Reader.Full.{process_read-full}
use c_project.Prelude.{
  ℕ, ◌≡◌, refl, true, false, none, some, List, [], ◌∷◌, ◌++◌, replicate, arith, Option, ◌<◌, inl,
  zero, suc,
}
use c_project.Prelude.Int.{pos}
use c_project.HttpServer.Run.{ok, ◌>>=◌, fault, over_read}
use c_project.HttpServer.Run.Returns.{Safe, Returns}
use c_project.HttpServer.CString.{codes, c_str_at}
use c_project.HttpServer.Conn.{HttpConn, requestline, get, init, write_buffer_size, content}
use c_project.HttpServer.Conn.Valid.{IsValid, init-IsValid}
use c_project.HttpServer.Line.{parse_line, cr, lf}
use c_project.HttpServer.Line.Resume.{carry_on, parse_line_resume}
use c_project.HttpServer.Os.{Files, World}
use c_project.HttpServer.Reader.{process_read}
use c_project.HttpServer.Reader.Loop.{process_read-IsValid}
use c_project.HttpServer.Response.{error_404_form}
use c_project.HttpServer.Response.Pages.{Page}
use c_project.HttpServer.Pool.{
  Pool, create, append, post, wait, Reach, here, next, appends, posts, waits, destroy, destroys,
  shut, shuts,
}
use c_project.HttpServer.Pool.Invariant.{Inv, Reach-Inv}
use c_project.HttpServer.Main.{Event, Server, hang_up_user, client_event, handle, serve}
use c_project.HttpServer.Main.Events.{serve-pool}
use c_project.HttpServer.Transfer.{bytes, would_block}
use c_project.HttpServer.Transfer.Laws.{received, received-IsValid}

-- Before `init`.
abbrev blank : HttpConn
blank = record {
  sockfd = none;
  address = 0;
  read_buf = [];
  read_idx = 0;
  checked_idx = 0;
  start_line = 0;
  write_buf = [];
  write_idx = 0;
  check_state = requestline;
  method = get;
  real_file = [];
  url = none;
  version = none;
  host = none;
  content_length = pos 0;
  linger = false;
  file_address = none;
  file_stat = record { mode = 0; size = 0 };
  iv = [];
}

abbrev request : List ℕ
request = codes "GET /a HTTP/1.1" ++ cr ∷ lf ∷ cr ∷ lf ∷ []

abbrev asked : HttpConn
asked = received request (init blank)

asked-IsValid : IsValid asked
unfolding init
asked-IsValid = received-IsValid request (init-IsValid blank) (omega arith)

received-IsValid_example : IsValid (received request (init blank))
unfolding init
received-IsValid_example = received-IsValid request (init-IsValid blank) (omega arith)

abbrev no_files : Files
no_files = record { stat = λ path. none; mmap = λ path. none }

process_read-IsValid_example : Safe (λ (code, c'). IsValid c') (process_read no_files asked)
unfolding init
process_read-IsValid_example =
    process_read-IsValid no_files asked (inl (record { valid = asked-IsValid; ready = tt }))

-- The peer has filled the buffer, and content is still to come.
abbrev flooded : HttpConn
flooded = record (received (replicate 2048 65) (init blank)) { check_state = content }

unended-replicate : (n : ℕ) → c_str_at (replicate n 65) 0 ≡ none
unfolding c_str_at
unended-replicate zero = refl
unended-replicate (suc n) = rw (unended-replicate n) refl

flooded-over_read : process_read no_files flooded ≡ fault over_read
unfolding init
flooded-over_read =
    process_read-full no_files flooded
      (record { reads_content = refl; unended = unended-replicate 2048 })

-- A request line that has arrived up to its carriage return.
abbrev half : HttpConn
half = received (codes "GE" ++ cr ∷ []) (init blank)

parse_line_resume_example :
    parse_line (received (lf ∷ []) half) ≡ (parse_line half >>= carry_on (lf ∷ []))
unfolding init
parse_line_resume_example = parse_line_resume (lf ∷ []) half (omega arith)

-- A `%s` that prints nothing.
abbrev no_text : ℕ → Option (List ℕ)
no_text status = some []

-- A connection that answers, its write buffer still empty.
abbrev answering : HttpConn
answering = record blank { write_buf = replicate write_buffer_size 0 }

abbrev missing : Page
missing = record { status = 404; title = codes "Not found"; form = error_404_form }

-- A file of twelve bytes at an address, and an empty one.
abbrev mapped_file : HttpConn
mapped_file = record answering {
  file_address = some 4096;
  file_stat = record { mode = 0; size = 12 };
}

abbrev no_calls : World
no_calls = record { user_count = pos 0; log = [] }

-- Fifty bytes of a hundred are sent.
abbrev sending : HttpConn
sending = record answering { write_idx = 100 }

-- Client 5 sends a request.
abbrev incoming : Event
incoming = record {
  fd = 5;
  readable = true;
  hang_up = false;
  error = false;
  writable = false;
  accepted = none;
  incoming = bytes request ∷ would_block ∷ [];
  outgoing = [];
}

abbrev started : Server
started = record { listenfd = 3; users = λ i. blank; world = no_calls; pool = create 8 10000 }

abbrev hung_up : Server
hung_up = hang_up_user 5 started

serve-incoming : serve (incoming ∷ []) started ≡ ok hung_up
unfolding serve handle client_event
serve-incoming = refl

serve-pool_example : hung_up.pool ≡ create 8 10000
serve-pool_example = serve-pool (incoming ∷ []) started hung_up serve-incoming

-- A client is accepted at the descriptor 5.
abbrev arriving : Event
arriving = record incoming { fd = 3; accepted = some (5, 1) }

-- A request is put into the pool of one thread, which takes it.
abbrev filled : Pool
filled = wait (post (append 7 (create 1 4)).1)

Reach-filled : Reach (create 1 4) filled
unfolding create append post
Reach-filled =
    next (next (next here refl (appends 7)) refl (posts (omega arith))) refl
      (waits (omega arith) (omega arith))

-- The destructor ends while the thread is on its way to the lock, which is then destroyed.
Reach-destroyed : Reach (create 1 4) (destroy (shut filled)) × (0 < (destroy (shut filled)).woken)
unfolding create append post wait shut destroy
Reach-destroyed = (next (next Reach-filled refl shuts) refl (destroys refl), omega arith)

Reach-Inv_example : Inv 1 filled
Reach-Inv_example = Reach-Inv 1 4 Reach-filled
