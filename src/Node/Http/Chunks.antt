-- ===== src/Node/Http/Chunks.antt =====
-- What `handle_connection` of magnum-tcp/src/main.rs sends, however a request is cut into chunks.
use magnus_tcp.Base.{
  ℕ, ◌≡◌, refl, sym, ap, ◌∙◌, true, false, Option, none, some, List, [], ◌∷◌, ◌++◌, append_assoc,
  arith, length, ◌<◌, ◌≤◌,
}
use magnus_tcp.Retransmit.{is_nil}
use magnus_tcp.Text.{codes, starts_with, has_window}
use magnus_tcp.Node.Http.{
  blank_line, build_http_response, is_http, Sending, bytes, close, Serving, take_chunk,
  serve_chunks, handle_connection,
}

-- All that has come in.
abbrev pub received : List (List ℕ × ℕ) → List ℕ
received [] = []
received ((chunk, secs) ∷ chunks) = chunk ++ received chunks

-- The chunk that comes first.
abbrev pub first_chunk : List (List ℕ × ℕ) → List ℕ
first_chunk [] = []
first_chunk ((chunk, secs) ∷ chunks) = chunk

ends_empty : (t : List ℕ) → starts_with t [] ≡ true
unfolding starts_with
ends_empty [] = refl
ends_empty (c ∷ t) = refl

starts_with-append : (s t p : List ℕ) → starts_with s p ≡ true → starts_with (s ++ t) p ≡ true
unfolding starts_with
starts_with-append [] t [] h = ends_empty t
starts_with-append (c ∷ s) t [] h = refl
starts_with-append [] t (p ∷ ps) h = ground arith
starts_with-append (c ∷ s) t (p ∷ ps) h = ground (arith, starts_with-append s t ps)

has_window-append : (s t p : List ℕ) → has_window s p ≡ true → has_window (s ++ t) p ≡ true
unfolding has_window
has_window-append [] t p h = ground arith
has_window-append (c ∷ s) t p h =
    ground (arith, starts_with-append (c ∷ s) t p, has_window-append s t p)

is_http-append : (s t : List ℕ) → is_http s ≡ true → is_http (s ++ t) ≡ true
unfolding is_http
is_http-append s t h = ground (
  arith,
  starts_with-append s t (codes "GET "),
  starts_with-append s t (codes "POST "),
  starts_with-append s t (codes "HEAD "),
  starts_with-append s t (codes "PUT "),
  starts_with-append s t (codes "DELETE "),
)

abbrev waiting : List ℕ → Serving
waiting buf = record { request_buf = buf; responded = false }

-- Nothing more is sent after a response.
serve_responded :
    (buf : List ℕ) (chunks : List (List ℕ × ℕ))
    → serve_chunks (record { request_buf = buf; responded = true }) chunks ≡ close ∷ []
unfolding serve_chunks take_chunk
serve_responded buf [] = refl
serve_responded buf ((chunk, secs) ∷ chunks) = serve_responded (buf ++ chunk) chunks

abbrev sends : Option (List ℕ) → List Sending → List Sending
sends none rest = rest
sends (some b) rest = bytes b ∷ rest

serve_step :
    (s s' : Serving) (chunk : List ℕ) (secs : ℕ) (sent : Option (List ℕ))
    (later : List (List ℕ × ℕ))
    → take_chunk s chunk secs ≡ (s', sent)
    → serve_chunks s ((chunk, secs) ∷ later) ≡ sends sent (serve_chunks s' later)
unfolding serve_chunks
serve_step s s' chunk secs none later e =
    ap
      (λ r. elim (r.1) [
        | none ↦ serve_chunks (r.0) later
        | some b ↦ bytes b ∷ serve_chunks (r.0) later
      ])
      e
serve_step s s' chunk secs (some sent) later e =
    ap
      (λ r. elim (r.1) [
        | none ↦ serve_chunks (r.0) later
        | some b ↦ bytes b ∷ serve_chunks (r.0) later
      ])
      e

serve_completed :
    (buf chunk : List ℕ) (secs : ℕ) (later : List (List ℕ × ℕ))
    → is_http (buf ++ chunk) ≡ true
    → has_window (buf ++ chunk) blank_line ≡ true
    → serve_chunks (waiting buf) ((chunk, secs) ∷ later)
      ≡ bytes (build_http_response (buf ++ chunk) secs) ∷ close ∷ []
unfolding take_chunk
serve_completed buf chunk secs later http whole =
    serve_step (waiting buf) _ chunk secs (some (build_http_response (buf ++ chunk) secs)) later
      (rw (http, whole))
    ∙ ap (λ r. bytes (build_http_response (buf ++ chunk) secs) ∷ r)
        (serve_responded (buf ++ chunk) later)

serve_waits :
    (buf chunk : List ℕ) (secs : ℕ) (later : List (List ℕ × ℕ))
    → is_http (buf ++ chunk) ≡ true
    → has_window (buf ++ chunk) blank_line ≡ false
    → serve_chunks (waiting buf) ((chunk, secs) ∷ later)
      ≡ serve_chunks (waiting (buf ++ chunk)) later
unfolding take_chunk
serve_waits buf chunk secs later http part =
    serve_step (waiting buf) (waiting (buf ++ chunk)) chunk secs none later (rw (http, part))

no_window : (s t p : List ℕ) → has_window (s ++ t) p ≡ false → has_window s p ≡ false
no_window s t p h = ground (arith, has_window-append s t p)

serve_request :
    (buf : List ℕ) (before : List (List ℕ × ℕ)) (chunk : List ℕ) (secs : ℕ)
    (later : List (List ℕ × ℕ))
    → is_http (buf ++ first_chunk (before ++ (chunk, secs) ∷ [])) ≡ true
    → has_window (buf ++ received before) blank_line ≡ false
    → has_window (buf ++ (received before ++ chunk)) blank_line ≡ true
    → serve_chunks (waiting buf) (before ++ (chunk, secs) ∷ later)
      ≡ bytes (build_http_response (buf ++ (received before ++ chunk)) secs) ∷ close ∷ []
serve_request buf [] chunk secs later http part whole =
    serve_completed buf chunk secs later http whole
serve_request buf ((c, t) ∷ before) chunk secs later http part whole =
    let all : buf ++ ((c ++ received before) ++ chunk) ≡ (buf ++ c) ++ (received before ++ chunk) =
      ap (λ r. buf ++ r) (append_assoc c (received before) chunk)
      ∙ sym (append_assoc buf c (received before ++ chunk)) in
    serve_waits buf c t (before ++ (chunk, secs) ∷ later) http (
      no_window (buf ++ c) (received before) blank_line
        (rw (append_assoc buf c (received before)) part))
    ∙ serve_request (buf ++ c) before chunk secs later (is_http-append (buf ++ c) _ http)
        (rw (append_assoc buf c (received before)) part) (rw (sym all) whole)
    ∙ ap (λ r. bytes (build_http_response r secs) ∷ close ∷ []) (sym all)

pub handle_connection-request :
    (before : List (List ℕ × ℕ)) (chunk : List ℕ) (secs : ℕ) (later : List (List ℕ × ℕ))
    → is_http (first_chunk (before ++ (chunk, secs) ∷ [])) ≡ true
    → has_window (received before) blank_line ≡ false
    → has_window (received before ++ chunk) blank_line ≡ true
    → handle_connection (before ++ (chunk, secs) ∷ later)
      ≡ bytes (build_http_response (received before ++ chunk) secs) ∷ close ∷ []
unfolding handle_connection
handle_connection-request before chunk secs later = serve_request [] before chunk secs later

handle_connection-raw :
    (chunk : List ℕ) (secs : ℕ) (later : List (List ℕ × ℕ))
    → is_http chunk ≡ false
    → is_nil chunk ≡ false
    → handle_connection ((chunk, secs) ∷ later) ≡ bytes chunk ∷ close ∷ []
unfolding handle_connection take_chunk
handle_connection-raw chunk secs later raw some_bytes =
    serve_step (waiting []) (record { request_buf = chunk; responded = true }) chunk secs
      (some chunk) later (rw (raw, some_bytes))
    ∙ ap (λ r. bytes chunk ∷ r) (serve_responded chunk later)

too_short : (s p : List ℕ) → length s < length p → starts_with s p ≡ false
unfolding starts_with
too_short [] [] h = absurd (omega arith)
too_short (c ∷ s) [] h = absurd (omega arith)
too_short [] (q ∷ p) h = refl
too_short (c ∷ s) (q ∷ p) h = ground (arith, too_short s p (omega arith))

-- The shortest of the methods has three letters, and a space.
is_http-short : (s : List ℕ) → length s ≤ 3 → is_http s ≡ false
unfolding is_http
is_http-short s h = ground (
  arith,
  too_short s (codes "GET ") (omega arith),
  too_short s (codes "POST ") (omega arith),
  too_short s (codes "HEAD ") (omega arith),
  too_short s (codes "PUT ") (omega arith),
  too_short s (codes "DELETE ") (omega arith),
)

-- A whole request with its blank line gets its response if it comes in one chunk. The same request in
-- two chunks, the first of one to three bytes, gets these bytes back and never its response. In both
-- cases nothing is sent for later chunks.
pub cut_in_method :
    (start rest : List ℕ) (secs : ℕ) (later : List (List ℕ × ℕ))
    → 0 < length start
    → length start ≤ 3
    → is_http (start ++ rest) ≡ true
    → has_window (start ++ rest) blank_line ≡ true
    → (handle_connection ((start ++ rest, secs) ∷ later)
        ≡ bytes (build_http_response (start ++ rest) secs) ∷ close ∷ [])
      × (handle_connection ((start, secs) ∷ (rest, secs) ∷ later) ≡ bytes start ∷ close ∷ [])
unfolding is_nil has_window
cut_in_method start rest secs later some_bytes short http whole = (
  handle_connection-request [] (start ++ rest) secs later http refl whole,
  handle_connection-raw start secs ((rest, secs) ∷ later) (is_http-short start short)
      (not_nil start some_bytes),
)
  where
    not_nil : (s : List ℕ) → 0 < length s → is_nil s ≡ false
    not_nil [] h = absurd (omega arith)
    not_nil (c ∷ s) h = refl
