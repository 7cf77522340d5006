-- ===== src/Wire/Chunk/EndOfInput.antt =====
-- Where `ReadChunk` (internal/wire/data.go) reports a bare io.EOF: between two frames, and nowhere
-- else.
use fsend.Base.{
  ℕ, zero, suc, ◌%◌, ◌^◌, ◌+◌, ◌≡◌, refl, ◌≢◌, ◌↔◌, ◌⊎◌, inl, inr, Bool, true, false, arith,
}
use fsend.Base.{List, [], ◌∷◌, ◌++◌, none, some, if◌then◌else◌}
use fsend.Wire.Reader.{Result, ok, err, eof, malformed_chunk, wrap, unless}
use fsend.Wire.Reader.{wrong_frame_type, chunk_too_large, ◌>>=◌, read_full, begun}
use fsend.Wire.Chunk.{Segment, validate, fill_root, read_root, read_segment}
use fsend.Wire.Chunk.{read_segments, read_payload, read_body, read_chunk}

-- A result that is not the bare end of the input.
record NotEof {A : Type 0} (r : Result A) : Type 0 where
  differs : r ≢ err eof

ok-NotEof : {A : Type 0} (a : A) → NotEof (ok a)
ok-NotEof a = record { differs = λ e. cc }

too_large-NotEof : {A : Type 0} → NotEof {A = A} (err chunk_too_large)
too_large-NotEof = record { differs = λ e. cc }

malformed-NotEof : {A : Type 0} → NotEof {A = A} (err malformed_chunk)
malformed-NotEof = record { differs = λ e. cc }

wrong_type-NotEof : {A : Type 0} → NotEof {A = A} (err wrong_frame_type)
wrong_type-NotEof = record { differs = λ e. cc }

>>=-NotEof :
    {A B : Type 0} {m : Result A} {f : A → Result B}
    → NotEof m
    → ((a : A) → NotEof (f a))
    → NotEof (m >>= f)
>>=-NotEof {m = ok a} h k = k a
>>=-NotEof {m = err e} h k = record { differs = λ p. h.differs (cc) }

wrap-NotEof : {A : Type 0} (r : Result A) → NotEof (wrap r)
wrap-NotEof (ok a) = ok-NotEof a
wrap-NotEof (err e) = record { differs = λ p. cc }

begun-NotEof : (b : ℕ) (r : Result (List ℕ × List ℕ)) → NotEof (begun b r)
begun-NotEof b (ok p) = ok-NotEof _
begun-NotEof b (err e) = record { differs = λ p. cc }

if-NotEof :
    {A : Type 0} (b : Bool) (x y : Result A) → NotEof x → NotEof y → NotEof (if b then x else y)
if-NotEof true x y h k = h
if-NotEof false x y h k = k

fill_root-NotEof : (s : Segment) (r : Result (List ℕ × List ℕ)) → NotEof (fill_root s r)
fill_root-NotEof s (ok p) = ok-NotEof _
fill_root-NotEof s (err e) = record { differs = λ p. cc }

validate-malformed : (s : Segment) → (validate s ≡ none) ⊎ (validate s ≡ some malformed_chunk)
unfolding validate
validate-malformed s = ground arith

unless-NotEof :
    {A : Type 0} (s : Segment) {r : Result A} → NotEof r → NotEof (unless (validate s) r)
unless-NotEof s h = elim (validate-malformed s) [ inl e ↦ rw e h | inr e ↦ rw e malformed-NotEof ]

ruleset not_eof = (
  ok-NotEof, too_large-NotEof, malformed-NotEof, wrong_type-NotEof, >>=-NotEof, wrap-NotEof,
  begun-NotEof, if-NotEof, fill_root-NotEof, unless-NotEof,
)

read_root-NotEof : (s : Segment) (src : List ℕ) → NotEof (read_root s src)
unfolding read_root
read_root-NotEof s src = search not_eof

read_segment-NotEof : (src : List ℕ) → NotEof (read_segment src)
unfolding read_segment
read_segment-NotEof src = search (not_eof, read_root-NotEof)

read_segments-NotEof :
    (n : ℕ) (done : List Segment) (sum : ℕ) (src : List ℕ) → NotEof (read_segments n done sum src)
unfolding read_segments
read_segments-NotEof zero done sum src = search not_eof
read_segments-NotEof (suc n) done sum src =
    >>=-NotEof (read_segment-NotEof src)
      (λ p. read_segments-NotEof n (done ++ (p.0 ∷ [])) ((sum + p.0.len) % 2 ^ 64) p.1)

read_payload-NotEof :
    (z : Bool) (pl : ℕ) (segs : List Segment) (sum : ℕ) (src : List ℕ)
    → NotEof (read_payload z pl segs sum src)
unfolding read_payload
read_payload-NotEof z pl segs sum src = search not_eof

read_body-NotEof : (fixed src : List ℕ) → NotEof (read_body fixed src)
unfolding read_body
read_body-NotEof fixed src = search (not_eof, read_segments-NotEof, read_payload-NotEof)

chunk_eof : (src : List ℕ) → read_chunk src ≡ err eof → src ≡ []
unfolding read_chunk
chunk_eof [] e = refl
chunk_eof (b ∷ src) e =
    let h : NotEof (read_chunk (b ∷ src)) =
      >>=-NotEof (begun-NotEof b (read_full 7 src)) (λ p. read_body-NotEof p.0 p.1) in
    absurd (h.differs e)

chunk_end : (src : List ℕ) → src ≡ [] → read_chunk src ≡ err eof
unfolding read_chunk
chunk_end src e = rw e

-- `ReadChunk` returns the bare io.EOF, by which a caller knows the orderly end of the stream,
-- exactly when nothing is left to read: a frame that is cut short is another error.
pub read_chunk-eof_iff : (src : List ℕ) → (read_chunk src ≡ err eof) ↔ (src ≡ [])
read_chunk-eof_iff src = (chunk_eof src, chunk_end src)
