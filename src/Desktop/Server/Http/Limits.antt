-- ===== src/Desktop/Server/Http/Limits.antt =====
-- The loop that reads a request's head: its end, and how many bytes it keeps.
use chat_x.Prelude.{
  ℕ, ◌+◌, ◌≤◌, ◌<◌, ◌≡◌, ◌≢◌, ap, true, none, some, List, [], ◌∷◌, ◌++◌, Str, any, ltb, length, All,
  length-append, Result, ok, err, arith, inl, inr, Result-cases, Option-cases,
}
use chat_x.Desktop.Server.Http.{
  Reading, bytes, waits, broken, HeadError, HttpRequestHead, read_loop, read_http_request_head,
  header_of, took, with_head, parse_head, max_http_header_bytes, hello_timeout_ms,
}

-- The socket hands over 1024 bytes at most: the length of `chunk`.
abbrev pub IsChunk : ℕ × Reading → Type 0
IsChunk (elapsed, bytes s) = length s ≤ 1024
IsChunk (elapsed, waits) = Unit
IsChunk (elapsed, broken) = Unit

took-length :
    (s t : Str) (elapsed : ℕ) (reading : Reading)
    → IsChunk (elapsed, reading)
    → took s reading ≡ ok t
    → length t ≤ length s + 1024
unfolding took
took-length s t elapsed (bytes []) small e = cc
took-length s t elapsed (bytes (b ∷ more)) small e =
    let made : s ++ b ∷ more ≡ t = ground arith in
    omega (arith, length-append s (b ∷ more), ap length made)
took-length s t elapsed waits small e = let made : s ≡ t = cc in omega (arith, ap length made)
took-length s t elapsed broken small e = cc

read_loop-length :
    (s t : Str) (readings : List (ℕ × Reading))
    → length s < max_http_header_bytes + 1024
    → All IsChunk readings
    → read_loop s readings ≡ some (ok t)
    → length t < max_http_header_bytes + 1024
unfolding read_loop
read_loop-length s t [] small chunks e = ground arith
read_loop-length s t ((elapsed, reading) ∷ readings) small chunks e =
    elim (Result-cases (took s reading)) [
      | inl (x, bad) ↦ ground (arith, e, bad)
      | inr (u, good) ↦ ground (
        arith,
        e,
        good,
        took-length s u elapsed reading chunks.0 good,
        λ (h : length u < max_http_header_bytes + 1024). read_loop-length u t readings h chunks.1,
      )
    ]

read_loop-ends :
    (s : Str) (readings : List (ℕ × Reading))
    → any (λ r. ltb hello_timeout_ms r.0) readings ≡ true
    → read_loop s readings ≢ none
unfolding read_loop
read_loop-ends s [] late = λ e. cc
read_loop-ends s ((elapsed, reading) ∷ readings) late = elim (Result-cases (took s reading)) [
  | inl (_, bad) ↦ ground (arith, bad)
  | inr (t, good) ↦ ground (arith, good, read_loop-ends t readings)
]

with_head-same :
    (u s : Str) (made : Result HeadError HttpRequestHead) (head : HttpRequestHead)
    → with_head u made ≡ ok (s, head)
    → u ≡ s
unfolding with_head
with_head-same u s (ok made) head e = ground arith
with_head-same u s (err x) head e = cc

-- A request's head that is read is fewer than 17,408 bytes, where the socket hands over 1024 at a time.
pub read_http_request_head-length :
    (readings : List (ℕ × Reading)) (s : Str) (head : HttpRequestHead)
    → All IsChunk readings
    → read_http_request_head readings ≡ some (ok (s, head))
    → length s < 17_408
unfolding read_http_request_head with_head
read_http_request_head-length readings s head chunks e =
    elim (Option-cases (read_loop [] readings)) [
      | inl waiting ↦ ground (arith, e, waiting)
      | inr (some_result, got) ↦ elim (Result-cases some_result) [
        | inl (x, bad) ↦ ground (arith, e, got, bad)
        | inr (u, good) ↦
            let kept = read_loop-length [] u readings (omega arith) chunks (rw good at got) in
            let same =
              with_head-same u s (parse_head (header_of u)) head (ground (arith, e, got, good)) in
            omega (arith, kept, ap length same)
      ]
    ]

-- The loop ends at the latest at the first reading that it comes to more than `HELLO_TIMEOUT` after its
-- start, whatever the readings are.
pub read_http_request_head-ends :
    (readings : List (ℕ × Reading))
    → any (λ r. ltb hello_timeout_ms r.0) readings ≡ true
    → read_http_request_head readings ≢ none
unfolding read_http_request_head
read_http_request_head-ends readings late = ground (arith, read_loop-ends [] readings late)
