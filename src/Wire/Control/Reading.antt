-- ===== src/Wire/Control/Reading.antt =====
-- What `ReadControlRaw` (internal/wire/control.go) accepts.
use fsend.Base.{ℕ, ◌≤◌, ◌<◌, ◌≡◌, ◌∙◌, refl, ap, sym, arith, append_assoc, length-append, get_or}
use fsend.Base.Bytes.{get_u32}
use fsend.Wire.Reader.{Result-cases, err_is_not_ok}
use fsend.Base.{List, [], ◌∷◌, ◌++◌, length, ◌⊎◌, inl, inr, All}
use fsend.Base.Bytes.{put_u32, u32_of, IsByte}
use fsend.Wire.{max_control_frame_size, protocol_version}
use fsend.Wire.Reader.{ok, wrap, read_full, read_full-ok, wrap-eq-ok}
use fsend.Wire.Control.{header_of, read_raw_body, read_control_raw}

put_u32-of :
    (a b c d : ℕ)
    → a < 256
    → b < 256
    → c < 256
    → d < 256
    → put_u32 (u32_of a b c d) ≡ a ∷ b ∷ c ∷ d ∷ []
put_u32-of a b c d ha hb hc hd = ground arith

raw_body_cases :
    (ver len : ℕ) (src body rest : List ℕ)
    → read_raw_body ver len src ≡ ok (body, rest)
    → (ver ≡ protocol_version)
      × (len ≤ max_control_frame_size)
      × (((len ≡ 0) × (body ≡ []) × (src ≡ rest)) ⊎ (wrap (read_full len src) ≡ ok (body, rest)))
unfolding read_raw_body
raw_body_cases ver len src body rest e = (ground arith, ground arith, ground arith)

-- The body that was read, and its length.
pub raw_body-ok :
    (ver len : ℕ) (src body rest : List ℕ)
    → read_raw_body ver len src ≡ ok (body, rest)
    → (src ≡ body ++ rest) × (length body ≡ len)
raw_body-ok ver len src body rest e = elim (raw_body_cases ver len src body rest e).2 [
  | inl (z, nil, same) ↦ (rw nil same, rw (nil, z))
  | inr got ↦ read_full-ok len src (wrap-eq-ok (read_full len src) got)
]

frame_form :
    (v t a b c d : ℕ) (r body rest : List ℕ)
    → All IsByte (v ∷ t ∷ a ∷ b ∷ c ∷ d ∷ r)
    → read_raw_body v (u32_of a b c d) r ≡ ok (body, rest)
    → (v ∷ t ∷ a ∷ b ∷ c ∷ d ∷ r ≡ header_of t body ++ (body ++ rest))
      × (length body ≤ max_control_frame_size)
frame_form v t a b c d r body rest h e =
    let (ver, fits, _) = raw_body_cases v (u32_of a b c d) r body rest e in
    let (split, len) = raw_body-ok v (u32_of a b c d) r body rest e in
    let four = put_u32-of a b c d h.1.1.0 h.1.1.1.0 h.1.1.1.1.0 h.1.1.1.1.1.0 in
    (
      rw (len, ver, split)
          (ap (λ (p : List ℕ). protocol_version ∷ (t ∷ (p ++ (body ++ rest)))) (sym four)),
      omega arith,
    )

-- ReadControlRaw accepts nothing but frames in the one form that WriteControl gives them, the
-- current version in front and a body of at most 64 KiB, and it reads no byte further.
pub read_control_raw-form :
    (src body rest : List ℕ)
    → All IsByte src
    → (read_control_raw src).body ≡ ok (body, rest)
    → (src ≡ header_of (read_control_raw src).ft body ++ (body ++ rest))
      × (length body ≤ max_control_frame_size)
unfolding read_control_raw
read_control_raw-form [] body rest h e = cc
read_control_raw-form (v ∷ []) body rest h e = cc
read_control_raw-form (v ∷ t ∷ []) body rest h e = cc
read_control_raw-form (v ∷ t ∷ a ∷ []) body rest h e = cc
read_control_raw-form (v ∷ t ∷ a ∷ b ∷ []) body rest h e = cc
read_control_raw-form (v ∷ t ∷ a ∷ b ∷ c ∷ []) body rest h e = cc
read_control_raw-form (v ∷ t ∷ a ∷ b ∷ c ∷ d ∷ r) body rest h e =
    frame_form v t a b c d r body rest h e

-- What a frame that is read takes from the source: its header and more.
pub read_control_raw-ok :
    (src : List ℕ) (body rest : List ℕ)
    → (read_control_raw src).body ≡ ok (body, rest)
    → (used : List ℕ) × (src ≡ used ++ rest) × (6 ≤ length used)
unfolding read_control_raw
read_control_raw-ok src body rest e = elim (Result-cases (read_full 6 src)) [
  | inr (x, bad) ↦ absurd (err_is_not_ok (read_control_raw src).body {e = x} (rw bad refl) e)
  | inl ((header, left), got) ↦
      let (whole, six) = read_full-ok 6 src got in
      let (front, len) =
        raw_body-ok (get_or header 0 0) (get_u32 header 2) left body rest (rw got at e) in
      (
        header ++ body,
        whole ∙ ap (λ l. header ++ l) front ∙ sym (append_assoc header body rest),
        omega (arith, length-append header body),
      )
]
