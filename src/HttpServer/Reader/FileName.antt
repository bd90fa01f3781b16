-- ===== src/HttpServer/Reader/FileName.antt =====
-- The file name that `do_request` builds is a C string in its array.
use c_project.Prelude.{
  ℕ, ◌≡◌, ◌∙◌, List, ◌++◌, length, drop, replicate, get_elem?, length-append, length-take,
  length-drop, length-replicate, get_elem?-append_at, get_elem?-drop, arith,
}
use c_project.HttpServer.Conn.{filename_len}
use c_project.HttpServer.Reader.{doc_root, strncpy_bytes, file_name}

length-strncpy_bytes : (s : List ℕ) (n : ℕ) → length (strncpy_bytes s n) ≡ n
length-strncpy_bytes s n = omega (
  arith,
  length-take n (s ++ replicate n 0),
  length-append s (replicate n 0),
  length-replicate {A = ℕ} n 0,
)

module _ (target old : List ℕ) (size : length old ≡ filename_len) where
  pub length-file_name : length (file_name target old) ≡ filename_len
  unfolding file_name
  length-file_name = omega (
    arith,
    length-append (strncpy_bytes target 186) (drop 199 old),
    length-strncpy_bytes target 186,
    length-drop 199 old,
  )

  pub file_name-ends : get_elem? (file_name target old) 199 ≡ get_elem? old 199
  unfolding file_name
  file_name-ends =
      get_elem?-append_at doc_root (strncpy_bytes target 186 ++ drop 199 old) 199 186 (omega arith)
      ∙ get_elem?-append_at (strncpy_bytes target 186) (drop 199 old) 186 0
          (omega (arith, length-strncpy_bytes target 186))
      ∙ get_elem?-drop 199 199 old (omega arith)
