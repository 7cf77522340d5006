-- ===== src/Transfer/Listing/Exchange.antt =====
-- What the receiver makes of a listing (internal/transfer/listing.go).
use fsend.Base.{ℕ, zero, suc, ◌+◌, ◌^◌, ◌≤◌, ◌<◌, ◌≡◌, inl, inr, refl, ap, subst, ◌∙◌}
use fsend.Base.{arith, true, Bool-cases, Option}
use fsend.Base.{List, [], ◌∷◌, ◌++◌, ltb, ◌==◌, length}
use fsend.Base.{length-append, All, All-split, ==_iff}
use fsend.Base.Bytes.{IsByte}
use fsend.Wire.{FrameType}
use fsend.Wire.Reader.{Result, ok, err, Result-cases}
use fsend.Wire.Control.{header_of, read_control_raw, decode_body}
use fsend.Wire.Control.Reading.{read_control_raw-ok, read_control_raw-form}
use fsend.Transfer.Plan.{ListingEntry}
use fsend.Transfer.Listing.{
  type_listing_batch, type_listing_end, max_listing_entries, in_order, Listed, listed, unreadable,
  too_many_entries, out_of_order, peer_failed, unexpected, no_fuel, Progress, go_on, stop,
  add_batch, take_frame, take_raw, type_error, recv_loop, recv_listing,
}

-- The entries' indices count on from `i`.
abbrev pub IsNumbered : ℕ → List ListingEntry → Type 0
IsNumbered i [] = Unit
IsNumbered i (e ∷ es) = (e.index ≡ i) × IsNumbered (suc i) es

pub in_order-IsNumbered :
    (i : ℕ) (es : List ListingEntry)
    → i + length es ≤ 2 ^ 32
    → (in_order i es ≡ true → IsNumbered i es) × (IsNumbered i es → in_order i es ≡ true)
unfolding in_order
in_order-IsNumbered i [] h = ((λ x. tt), λ x. refl)
in_order-IsNumbered i (e ∷ es) h =
    let (l, r) = in_order-IsNumbered (suc i) es (omega arith) in
    ((λ x. (ground arith, l (ground arith))), λ x. ground (arith, x.0, r x.1))

module _ (decode : List ℕ → Option (List ListingEntry)) where
  -- With the entries `es` already there, the entries `all` come from `src` up to `rest`: a frame for
  -- each batch, then the frame that ends the listing, with nothing between them.
  pub data Comes : List ListingEntry → List ℕ → List ListingEntry → List ℕ → Type 0 where
    batch :
        (body : List ℕ) {es b all : List ListingEntry} {src behind rest : List ℕ}
        → src ≡ header_of type_listing_batch body ++ (body ++ behind)
        → decode_body decode [] body ≡ ok b
        → Comes (es ++ b) behind all rest
        → Comes es src all rest
    end :
        (body : List ℕ) {es : List ListingEntry} {src rest : List ℕ}
        → src ≡ header_of type_listing_end body ++ (body ++ rest)
        → Comes es src es rest

  -- The entries of a listing that is taken from `src` come from its frames, which `rest` stands right
  -- behind, are numbered from 0, and there are at most maxListingEntries.
  abbrev pub IsSound : List ListingEntry → List ℕ → Listed → Type 0
  IsSound es src (listed all rest) =
      IsNumbered 0 all × (length all ≤ max_listing_entries) × Comes es src all rest
  IsSound es src no_fuel = ⊥
  IsSound es src (unreadable e) = Unit
  IsSound es src too_many_entries = Unit
  IsSound es src out_of_order = Unit
  IsSound es src (peer_failed s) = Unit
  IsSound es src (unexpected ft) = Unit

  further :
      (body : List ℕ) (es b : List ListingEntry) (src behind : List ℕ)
      → src ≡ header_of type_listing_batch body ++ (body ++ behind)
      → decode_body decode [] body ≡ ok b
      → (out : Listed) → IsSound (es ++ b) behind out
      → IsSound es src out
  further body es b src behind whole e (listed all rest) (n, few, c) =
      (n, few, batch body whole e c)
  further body es b src behind whole e no_fuel v = v
  further body es b src behind whole e (unreadable x) v = tt
  further body es b src behind whole e too_many_entries v = tt
  further body es b src behind whole e out_of_order v = tt
  further body es b src behind whole e (peer_failed s) v = tt
  further body es b src behind whole e (unexpected ft) v = tt

  module _ (peer_code : List ℕ → ℕ) where
    -- What a frame leads to: a listing that is sound, or entries from which it goes on soundly.
    abbrev Took : List ListingEntry → List ℕ → Progress → Type 0
    Took es src (go_on more rest) =
        (length more ≤ max_listing_entries)
        × All IsByte rest
        × (length rest < length src)
        × ((out : Listed) → IsSound more rest out → IsSound es src out)
    Took es src (stop out) = IsSound es src out

    add_batch-Took :
        (es : List ListingEntry) (r : Result (List ListingEntry)) (body src rest : List ℕ)
        → decode_body decode [] body ≡ r
        → src ≡ header_of type_listing_batch body ++ (body ++ rest)
        → All IsByte rest
        → length rest < length src
        → Took es src (add_batch decode peer_code rest es r)
    add_batch-Took es (err e) body src rest d whole b small = tt
    add_batch-Took es (ok more) body src rest d whole b small =
        elim (Bool-cases (ltb max_listing_entries (length (es ++ more)))) [
          | inl c ↦ rw c tt
          | inr c ↦ rw c (ground arith, b, small, further body es more src rest whole d)
        ]

    take_frame-Took :
        (ft : FrameType) (body src rest : List ℕ) (es : List ListingEntry)
        → src ≡ header_of ft body ++ (body ++ rest)
        → All IsByte rest
        → length rest < length src
        → length es ≤ max_listing_entries
        → Took es src (take_frame decode peer_code ft body rest es)
    unfolding take_frame
    take_frame-Took ft body src rest es whole b small h =
        elim (Bool-cases (ft == type_listing_batch)) [
          | inl c ↦
              let whole' =
                whole
                ∙ ap (λ t. header_of t body ++ (body ++ rest))
                    ((==_iff ft type_listing_batch).0 c) in
              rw c
                (add_batch-Took es (decode_body decode [] body) body src rest refl whole' b small)
          | inr c ↦ elim (Bool-cases (ft == type_listing_end)) [
            | inr d ↦ elim (Bool-cases (ft == type_error)) [
              | inl f ↦ rw (c, d, f) tt
              | inr f ↦ rw (c, d, f) tt
            ]
            | inl d ↦ elim (Bool-cases (in_order 0 es)) [
              | inr f ↦ rw (c, d, f) tt
              | inl f ↦
                  let whole' =
                    whole
                    ∙ ap (λ t. header_of t body ++ (body ++ rest))
                        ((==_iff ft type_listing_end).0 d) in
                  rw (c, d, f) ((in_order-IsNumbered 0 es (omega arith)).0 f, h, end body whole')
            ]
          ]
        ]

    take_raw-Took :
        (src : List ℕ) (es : List ListingEntry)
        → All IsByte src
        → length es ≤ max_listing_entries
        → Took es src (take_raw decode peer_code (read_control_raw src) es)
    unfolding take_raw
    take_raw-Took src es b h =
        let raw = read_control_raw src in
        elim (Result-cases raw.body) [
          | inr (e, bad) ↦ rw bad tt
          | inl ((body, rest), got) ↦
              let (used, split, six) = read_control_raw-ok src body rest got in
              let (whole, _) = read_control_raw-form src body rest b got in
              rw got (
                take_frame-Took raw.ft body src rest es whole
                  (All-split IsByte used rest (subst (All IsByte) split b)).1
                  (omega (arith, ap length split, length-append used rest)) h)
        ]

    recv_loop-IsSound :
        (n : ℕ) (es : List ListingEntry) (src : List ℕ)
        → All IsByte src
        → length es ≤ max_listing_entries
        → length src < n
        → IsSound es src (recv_loop decode peer_code n es src)
    unfolding recv_loop
    recv_loop-IsSound zero es src b h fuel = absurd (omega arith)
    recv_loop-IsSound (suc n) es src b h fuel =
        follow (take_raw decode peer_code (read_control_raw src) es) (take_raw-Took src es b h)
          (recv_loop-IsSound n)
      where
        follow :
            (p : Progress)
            → Took es src p
            → ((more : List ListingEntry) (rest : List ℕ)
                → All IsByte rest
                → length more ≤ max_listing_entries
                → length rest < n
                → IsSound more rest (recv_loop decode peer_code n more rest))
            → IsSound es src (elim p [
              | stop out ↦ out
              | go_on more rest ↦ recv_loop decode peer_code n more rest
            ])
        follow (stop out) took go = took
        follow (go_on more rest) (few, bytes, small, on) go =
            on (recv_loop decode peer_code n more rest) (go more rest bytes few (omega arith))

    -- Whatever bytes the peer sends, reading the listing ends with an error of the code, or with
    -- the entries of the batch frames that stand in front, one behind the other, and the reader
    -- right behind the frame that ends the listing; the entries are numbered 0, 1, 2 and so on,
    -- and are at most 4,000,000.
    pub recv_listing-IsSound :
        (src : List ℕ) → All IsByte src → IsSound [] src (recv_listing decode peer_code src)
    unfolding recv_listing
    recv_listing-IsSound src b =
        recv_loop-IsSound (suc (length src)) [] src b (omega arith) (omega arith)
