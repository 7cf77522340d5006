-- ===== src/Relay/Framing/RoundTrip.antt =====
-- Frames are read as they were written (internal/relay/framing.go).
use fsend.Base.{ℕ, ◌≡◌, ◌↔◌, refl, sym, ap, ◌∙◌, arith, true, false, not, ◌||◌}
use fsend.Base.{none, some, List, [], ◌∷◌, ◌++◌, if◌then◌else◌, ltb, ◌==◌}
use fsend.Base.{
  length, get_or, take, drop, length-append, take-append-drop, length-take, length-drop,
}
use fsend.Base.{take_exact, drop_exact, get_or_exact, drop_past, drop_cons, drop-drop, Bool, subst}
use fsend.Relay.Framing.{Token, frame, parse, frame_control, parse_control, ControlFrame}
use fsend.Relay.Framing.{header_size, token_size, data_version}

-- What a payload is framed with a token of 16 bytes is parsed as.
pub parse-frame :
    (token : Token) (payload : List ℕ)
    → length token ≡ token_size
    → parse (frame token payload)
      ≡ some (record { version = data_version; token = token; payload = payload })
unfolding parse frame
parse-frame token payload h =
    let long : ltb (length (frame token payload)) header_size ≡ false =
      unfold frame in ground (arith, length-append token payload) in
    rw (long, take_exact 16 token payload h, drop_exact 16 token payload h) refl

-- A control frame with arrays of their sizes.
pub record IsSized (f : ControlFrame) : Type 0 where
  pub token_length : length f.token ≡ 16
  pub id_length : length f.id ≡ 8
  pub cookie_length : length f.cookie ≡ 16

-- The test of parseControl, and what it yields if the test is passed.
abbrev rejects : List ℕ → Bool
rejects b = not (length b == 42) || not (get_or b 0 0 == 2)

abbrev fields : List ℕ → ControlFrame
fields b = record {
  token = take 16 (drop 1 b);
  typ = get_or b 17 0;
  id = take 8 (drop 18 b);
  cookie = drop 26 b;
}

tail_size :
    (token id cookie : List ℕ) (typ : ℕ)
    → length token ≡ 16
    → length id ≡ 8
    → length cookie ≡ 16
    → length (token ++ (typ ∷ id ++ cookie)) ≡ 41
tail_size token id cookie typ h k l =
    omega (arith, length-append token (typ ∷ id ++ cookie), length-append id cookie)

made_fields :
    (token id cookie : List ℕ) (typ : ℕ)
    → length token ≡ 16
    → length id ≡ 8
    → length cookie ≡ 16
    → fields (frame_control token typ id (some cookie))
      ≡ record { token = token; typ = typ; id = id; cookie = cookie }
unfolding frame_control
made_fields token id cookie typ h k l =
    rw
      (
        take_exact 16 token (typ ∷ id ++ cookie) h,
        get_or_exact 16 token typ (id ++ cookie) 0 h,
        drop_past 16 1 17 token (typ ∷ id ++ cookie) refl h,
        drop_past 16 9 25 token (typ ∷ id ++ cookie) refl h,
        take_exact 8 id cookie k,
        drop_exact 8 id cookie k,
      )
      refl

made :
    (token id cookie : List ℕ) (typ : ℕ)
    → length token ≡ 16
    → length id ≡ 8
    → length cookie ≡ 16
    → parse_control (frame_control token typ id (some cookie))
      ≡ some (record { token = token; typ = typ; id = id; cookie = cookie })
unfolding parse_control frame_control
made token id cookie typ h k l =
    let b = frame_control token typ id (some cookie) in
    let passes : rejects b ≡ false = ground (arith, tail_size token id cookie typ h k l) in
    ap (λ c. if c then none else some (fields b)) passes
    ∙ ap some (made_fields token id cookie typ h k l)

if-some :
    (c : Bool) (g f : ControlFrame) → (if c then none else some g) ≡ some f → (c ≡ false) × (g ≡ f)
if-some true g f e = cc
if-some false g f e = (refl, cc)

-- The bytes behind the first of a frame of the right size, in their parts.
parts :
    (t : List ℕ)
    → length t ≡ 41
    → t ≡ take 16 t ++ (get_or t 16 0 ∷ take 8 (drop 17 t) ++ drop 25 t)
parts t h =
    sym (take-append-drop 16 t)
    ∙ ap (λ u. take 16 t ++ u)
        (drop_cons 16 t 0 (omega arith)
          ∙ ap (λ u. get_or t 16 0 ∷ u)
              (sym (take-append-drop 8 (drop 17 t))
                ∙ ap (λ u. take 8 (drop 17 t) ++ u) (drop-drop 17 8 25 t refl)))

whole :
    (b : List ℕ)
    → rejects b ≡ false
    → IsSized (fields b)
      × (b ≡ frame_control (fields b).token (fields b).typ (fields b).id (some (fields b).cookie))
unfolding frame_control
whole [] h = cc
whole (x ∷ t) h =
    let (first, size) : (x ≡ 2) × (length t ≡ 41) = ground arith in
    (
      record {
        token_length = omega (arith, length-take 16 t);
        id_length = omega (arith, length-take 8 (drop 17 t), length-drop 17 t);
        cookie_length = omega (arith, length-drop 25 t);
      },
      rw first (ap (λ u. 2 ∷ u) (parts t size)),
    )

accepted :
    (b : List ℕ) (f : ControlFrame)
    → parse_control b ≡ some f
    → IsSized f × (b ≡ frame_control f.token f.typ f.id (some f.cookie))
unfolding parse_control
accepted b f e =
    let (passes, same_fields) = if-some (rejects b) (fields b) f e in
    subst (λ g. IsSized g × (b ≡ frame_control g.token g.typ g.id (some g.cookie))) same_fields
      (whole b passes)

-- parseControl accepts exactly the frames that frameControl makes of arrays of their sizes, and
-- reads back what they were made of.
pub parse_control_iff :
    (b : List ℕ) (f : ControlFrame)
    → (parse_control b ≡ some f)
      ↔ (IsSized f × (b ≡ frame_control f.token f.typ f.id (some f.cookie)))
unfolding parse_control frame_control
parse_control_iff b f = (
  accepted b f,
  λ (s, e).
      subst (λ x. parse_control x ≡ some f) (sym e)
        (made f.token f.id f.cookie f.typ s.token_length s.id_length s.cookie_length),
)

pub parse_control-length :
    (b : List ℕ) (f : ControlFrame) → parse_control b ≡ some f → length b ≡ 42
unfolding parse_control
parse_control-length b f e = let (passes, _) = if-some (rejects b) (fields b) f e in ground arith
