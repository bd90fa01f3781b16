-- ===== src/Reactor/Session.antt =====
-- What a worker of MyReactor/reactor.cpp does with a client: it reads all that is there, puts the
-- time in front, and sends the reply. What `recv`, `send` and the clock give are arguments.
-- `none` is a read behind `buff`.
pub mod Pieces
pub mod Sends
pub mod Replies
use c_project.Prelude.{
  ℕ, zero, suc, ◌+◌, ◌-◌, ◌/◌, ◌%◌, Bool, true, false, Option, none, some, List, [], ◌∷◌, ◌++◌,
  ◌==◌, ltb, if◌then◌else◌, overwrite, replicate, length, drop, take,
}
use c_project.Prelude.Options.{◌>>=◌}
use c_project.HttpServer.CString.{codes}
use c_project.HttpServer.Response.{decimal}

abbrev pub buff_size : ℕ
buff_size = 10

-- What `recv` gives: that there is no more, an error, the end, or bytes, ten at most.
pub data Received : Type 0 where
  would_block : Received
  failed : Received
  closed : Received
  bytes : List ℕ → Received

-- The bytes of a buffer up to a NUL, which has to be in it.
pub c_string : List ℕ → Option (List ℕ)
c_string [] = none
c_string (b ∷ buff) =
    let rest = c_string buff in if b == 0 then some [] else (do text ← rest; some (b ∷ text))

-- `buff` behind the `memset` and the `recv`.
unfoldable pub fill : List ℕ → List ℕ
fill text = overwrite (replicate buff_size 0) 0 text

-- Where the reading ends: with the message, or with the client released. While there are answers.
pub data Reading : Type 0 where
  message : List ℕ → Reading
  released : Reading
  reading : List ℕ → Reading

unfoldable pub read_all : List Received → (strclientmsg : List ℕ) → Option Reading
read_all [] strclientmsg = some (reading strclientmsg)
read_all (would_block ∷ answers) strclientmsg = some (message strclientmsg)
read_all (failed ∷ answers) strclientmsg = some released
read_all (closed ∷ answers) strclientmsg = some released
read_all (bytes text ∷ answers) strclientmsg = do
  part ← c_string (fill text)
  read_all answers (strclientmsg ++ part)

pub record Tm : Type 0 where
  pub tm_year : ℕ
  pub tm_mon : ℕ
  pub tm_mday : ℕ
  pub tm_hour : ℕ
  pub tm_min : ℕ
  pub tm_sec : ℕ

-- `setw (2)` with `setfill ('0')`
unfoldable pub two_digits : ℕ → List ℕ
two_digits n = if ltb n 10 then 48 ∷ decimal n else decimal n

unfoldable pub time_stamp : Tm → List ℕ
time_stamp now =
    codes "["
    ++ (decimal (now.tm_year + 1900)
        ++ (codes "-"
            ++ (two_digits (now.tm_mon + 1)
                ++ (codes "-"
                    ++ (two_digits now.tm_mday
                        ++ (codes " "
                            ++ (two_digits now.tm_hour
                                ++ (codes ":"
                                    ++ (two_digits now.tm_min
                                        ++ (codes ":"
                                            ++ (two_digits now.tm_sec
                                                ++ codes "]server reply: ")))))))))))

-- What `send` gives: that the buffer is full, an error, or how many bytes it took.
pub data Sent : Type 0 where
  full : Sent
  broken : Sent
  took : ℕ → Sent

-- How the sending ends, with the bytes that the client got.
pub data Sending : Type 0 where
  sent : (got : List ℕ) → Sending
  dropped : (got : List ℕ) → Sending
  sending : (got left : List ℕ) → Sending

abbrev pub is_empty : List ℕ → Bool
is_empty [] = true
is_empty (b ∷ text) = false

unfoldable pub send_all : List Sent → (got strclientmsg : List ℕ) → Sending
send_all [] got strclientmsg = sending got strclientmsg
send_all (full ∷ answers) got strclientmsg = send_all answers got strclientmsg
send_all (broken ∷ answers) got strclientmsg = dropped got
send_all (took n ∷ answers) got strclientmsg =
    let rest = send_all answers (got ++ take n strclientmsg) (drop n strclientmsg) in
    if is_empty (drop n strclientmsg) then sent (got ++ take n strclientmsg) else rest

-- What the session comes to.
pub data Session : Type 0 where
  still_reading : Session
  hung_up : Session
  replied : Sending → Session

abbrev pub reply : Tm → List Sent → Reading → Session
reply now answers (message text) = replied (send_all answers [] (time_stamp now ++ text))
reply now answers released = hung_up
reply now answers (reading text) = still_reading

unfoldable pub serve_client : Tm → List Received → List Sent → Option Session
serve_client now received answers = do r ← read_all received []; some (reply now answers r)
