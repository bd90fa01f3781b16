-- ===== src/WebServer/Parser/Lines.antt =====
-- How the functions of WebServer/Parser take apart what was put together.
use c_project.Prelude.{
  ℕ, suc, ◌≡◌, refl, sym, ap, ◌∙◌, inl, inr, true, false, Bool-cases, some, [], ◌∷◌, ◌++◌, ◌==◌,
  ==_refl, if◌then◌else◌, arith,
}
use c_project.WebServer.Parser.{
  Text, lf, cr, space, colon, getline, pop_back, split_at, strip_prefix, has_char, http_slash,
  match_request_line, match_header, Request, Parsed, parsed, popped_empty, read_headers, HeaderLine,
  no_line, no_match, pair, of_match, header_line, add_header,
}

-- A text without a character.
abbrev pub Free : ℕ → Text → Type 0
Free sep text = has_char sep text ≡ false

pub Free-uncons :
    (sep c : ℕ) (text : Text) → Free sep (c ∷ text) → ((c == sep) ≡ false) × Free sep text
unfolding has_char
Free-uncons sep c text h = elim (Bool-cases (c == sep)) [
  | inl is_true ↦
      absurd
        (let x = sym (ap (λ b. if b then true else has_char sep text) is_true) ∙ h in ground arith)
  | inr is_false ↦ (is_false, sym (ap (λ b. if b then true else has_char sep text) is_false) ∙ h)
]

pub Free-append : (sep : ℕ) (s t : Text) → Free sep s → Free sep t → Free sep (s ++ t)
unfolding has_char
Free-append sep [] t h k = k
Free-append sep (c ∷ s) t h k =
    let (ne, free) = Free-uncons sep c s h in rw ne (Free-append sep s t free k)

pub Free-cons : (sep c : ℕ) (t : Text) → (c == sep) ≡ false → Free sep t → Free sep (c ∷ t)
unfolding has_char
Free-cons sep c t ne h = rw ne h

pub getline-append :
    (line rest : Text) → Free lf line → getline (line ++ cr ∷ lf ∷ rest) ≡ (line ++ cr ∷ [], rest)
unfolding getline
getline-append [] rest h = refl
getline-append (c ∷ line) rest h =
    let (ne, free) = Free-uncons lf c line h in rw (ne, getline-append line rest free) refl

pub pop_back-append : (line : Text) (c : ℕ) → pop_back (line ++ c ∷ []) ≡ line
unfolding pop_back
pop_back-append [] c = refl
pop_back-append (b ∷ []) c = refl
pop_back-append (b ∷ d ∷ line) c = ap (λ t. b ∷ t) (pop_back-append (d ∷ line) c)

pub split_at-append :
    (sep : ℕ) (text rest : Text)
    → Free sep text
    → split_at sep (text ++ sep ∷ rest) ≡ some (text, rest)
unfolding split_at
split_at-append sep [] rest h = rw (==_refl sep) refl
split_at-append sep (c ∷ text) rest h =
    let (ne, free) = Free-uncons sep c text h in rw (ne, split_at-append sep text rest free) refl

pub strip_prefix-append : (prefix text : Text) → strip_prefix prefix (prefix ++ text) ≡ some text
unfolding strip_prefix
strip_prefix-append [] text = refl
strip_prefix-append (p ∷ prefix) text = rw (==_refl p) (strip_prefix-append prefix text)

pub match_request_line-append :
    (method path version : Text)
    → Free space method
    → Free space path
    → Free space version
    → match_request_line (method ++ space ∷ (path ++ space ∷ (http_slash ++ version)))
      ≡ some (method, path, version)
unfolding match_request_line
match_request_line-append method path version m p v =
    rw
      (
        split_at-append space method (path ++ space ∷ (http_slash ++ version)) m,
        split_at-append space path (http_slash ++ version) p,
        strip_prefix-append http_slash version,
        v,
      )
      refl

pub match_header-append :
    (key value : Text)
    → Free colon key
    → Free cr value
    → Free lf value
    → match_header (key ++ colon ∷ space ∷ value) ≡ some (key, value)
unfolding match_header
match_header-append key value k c l = rw (split_at-append colon key (space ∷ value) k, c, l) refl

header_line-append : (line : Text) → header_line (line ++ cr ∷ []) ≡ of_match (match_header line)
unfolding header_line pop_back
header_line-append [] = refl
header_line-append (c ∷ line) = ap (λ l. of_match (match_header l)) (pop_back-append (c ∷ line) cr)

-- What the loop does with a line.
abbrev pub after_line : (fuel : ℕ) → HeaderLine → Text → Request → Parsed
after_line fuel no_line rest r = popped_empty
after_line fuel no_match rest r = parsed r rest
after_line fuel (pair key value) rest r = read_headers fuel rest (add_header key value r)

pub read_headers-after_line :
    (fuel c : ℕ) (stream : Text) (r : Request)
    → read_headers (suc fuel) (c ∷ stream) r
      ≡ after_line fuel (header_line (getline (c ∷ stream)).0) (getline (c ∷ stream)).1 r
unfolding read_headers
read_headers-after_line fuel c stream r =
    let line = getline (c ∷ stream) in
    elim (header_line line.0)
      as (λ h.
        (elim h [
          | no_line ↦ popped_empty
          | no_match ↦ parsed r line.1
          | pair key value ↦ read_headers fuel line.1 (add_header key value r)
        ])
        ≡ after_line fuel h line.1 r) [ no_line ↦ refl | no_match ↦ refl | pair key value ↦ refl ]

pub read_headers-line :
    (fuel : ℕ) (line rest : Text) (r : Request)
    → Free lf line
    → read_headers (suc fuel) (line ++ cr ∷ lf ∷ rest) r
      ≡ after_line fuel (of_match (match_header line)) rest r
read_headers-line fuel [] rest r h =
    read_headers-after_line fuel cr (lf ∷ rest) r
    ∙ ap (λ p. after_line fuel (header_line p.0) p.1 r) (getline-append [] rest h)
    ∙ ap (λ l. after_line fuel l rest r) (header_line-append [])
read_headers-line fuel (c ∷ line) rest r h =
    read_headers-after_line fuel c (line ++ cr ∷ lf ∷ rest) r
    ∙ ap (λ p. after_line fuel (header_line p.0) p.1 r) (getline-append (c ∷ line) rest h)
    ∙ ap (λ l. after_line fuel l rest r) (header_line-append (c ∷ line))
