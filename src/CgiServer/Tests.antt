-- ===== src/CgiServer/Tests.antt =====
-- Runs of CGIserver at concrete inputs.
use c_project.Prelude.{ℕ, List, [], ◌∷◌}
use c_project.CgiServer.{CgiConn}

-- "a", CR, LF, "b"
abbrev buffer : List ℕ
buffer = 97 ∷ 13 ∷ 10 ∷ 98 ∷ []

abbrev blank : CgiConn
blank = record { m_buf = []; m_read_idx = 0; calls = [] }
