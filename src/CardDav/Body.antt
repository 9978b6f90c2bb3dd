-- ===== src/CardDav/Body.antt =====
-- src/carddav_client.rs: the reading of a response's body, chunk by chunk, with a cap.
use carddav_mcp.Base.{
  ℕ, ◌+◌, ◌-◌, ◌^◌, ◌≤◌, ◌<◌, min, Bool, false, List, [], ◌∷◌, ◌++◌, append-nil, append_assoc,
  Option, none, some, String, ◌≡◌, ◌↔◌, refl, take-nil, leb→le, sym, ap, subst, take-all,
  take-append_left, take-append_right, ◌∙◌, arith, Result, ok, err, ◌>>◌, refuse_if, length,
  length-append, ltb, leb, if◌then◌else◌, take, inl, inr, Bool-cases,
}
use carddav_mcp.Tools.{CardDavError, too_large, http}

abbrev pub Bytes : Type 0
Bytes = List ℕ

-- `u64::MAX`, also the greatest `usize`.
abbrev pub u64_max : ℕ
u64_max = 2 ^ 64 - 1

-- `usize::saturating_add`
abbrev saturating_add : ℕ → ℕ → ℕ
saturating_add a b = min (a + b) u64_max

-- The loop of `read_limited` over the chunks of the stream; an error of the stream ends it.
unfoldable pub read_chunks : ℕ → Bytes → List (Result String Bytes) → Result CardDavError Bytes
read_chunks max_bytes body [] = ok body
read_chunks max_bytes body (err e ∷ stream) = err (http e)
read_chunks max_bytes body (ok chunk ∷ stream) =
    let rest = read_chunks max_bytes (body ++ chunk) stream in
    if ltb max_bytes (saturating_add (length body) (length chunk)) then err too_large else rest

abbrev exceeds : ℕ → Option ℕ → Bool
exceeds max_bytes none = false
exceeds max_bytes (some len) = ltb max_bytes len

-- `read_limited`, with the length that the header gives where it can be read, and the chunks.
unfoldable pub read_limited : ℕ → Option ℕ → List (Result String Bytes) → Result CardDavError Bytes
read_limited max_bytes content_length stream = do
  refuse_if (exceeds max_bytes content_length) too_large
  read_chunks max_bytes [] stream

-- The loop of `read_prefix`.
unfoldable pub read_prefix_from : ℕ → Bytes → List (Result String Bytes) → Bytes
read_prefix_from max_bytes body [] = body
read_prefix_from max_bytes body (err e ∷ stream) = body
read_prefix_from max_bytes body (ok chunk ∷ stream) =
    let remaining = max_bytes - length body in
    let body' = body ++ take (min (length chunk) remaining) chunk in
    let rest = read_prefix_from max_bytes body' stream in
    if ltb (length body) max_bytes
    then (if leb remaining (length chunk) then body' else rest)
    else body

unfoldable pub read_prefix : ℕ → List (Result String Bytes) → Bytes
read_prefix max_bytes stream = read_prefix_from max_bytes [] stream

-- The bytes of a stream up to its first error.
abbrev pub received : List (Result String Bytes) → Bytes
received [] = []
received (err e ∷ stream) = []
received (ok chunk ∷ stream) = chunk ++ received stream

-- No chunk is an error.
abbrev pub IsComplete : List (Result String Bytes) → Type 0
IsComplete [] = Unit
IsComplete (err e ∷ stream) = ⊥
IsComplete (ok chunk ∷ stream) = IsComplete stream

read_chunks-IsComplete :
    (max_bytes : ℕ) (body : Bytes) (stream : List (Result String Bytes)) (result : Bytes)
    → max_bytes < u64_max
    → length body ≤ max_bytes
    → read_chunks max_bytes body stream ≡ ok result
    → IsComplete stream × (result ≡ body ++ received stream) × (length result ≤ max_bytes)
unfolding read_chunks
read_chunks-IsComplete max_bytes body [] result small h e =
    (tt, ground (arith, append-nil body), ground arith)
read_chunks-IsComplete max_bytes body (err x ∷ stream) result small h e = absurd (ground arith)
read_chunks-IsComplete max_bytes body (ok chunk ∷ stream) result small h e =
    elim (Bool-cases (ltb max_bytes (saturating_add (length body) (length chunk)))) [
      | inl over ↦ absurd (ground arith)
      | inr fits ↦
          let (c, r, l) =
            read_chunks-IsComplete max_bytes (body ++ chunk) stream result small
              (ground (arith, length-append body chunk)) (ground arith) in
          (c, r ∙ append_assoc body chunk (received stream), l)
    ]

read_chunks-fits :
    (max_bytes : ℕ) (body : Bytes) (stream : List (Result String Bytes))
    → max_bytes < u64_max
    → IsComplete stream
    → length (body ++ received stream) ≤ max_bytes
    → read_chunks max_bytes body stream ≡ ok (body ++ received stream)
unfolding read_chunks
read_chunks-fits max_bytes body [] small c h = ap ok (sym (append-nil body))
read_chunks-fits max_bytes body (err x ∷ stream) small c h = absurd c
read_chunks-fits max_bytes body (ok chunk ∷ stream) small c h =
    let e : (body ++ chunk) ++ received stream ≡ body ++ (chunk ++ received stream) =
      append_assoc body chunk (received stream) in
    let h' : length ((body ++ chunk) ++ received stream) ≤ max_bytes =
      subst (λ s. length s ≤ max_bytes) (sym e) h in
    let rest = read_chunks-fits max_bytes (body ++ chunk) stream small c h' in
    let short : length body + length chunk ≤ max_bytes =
      omega (arith, length-append (body ++ chunk) (received stream), length-append body chunk) in
    ground (arith, rest, e)

abbrev pub IsWithin : ℕ → Option ℕ → Type 0
IsWithin max_bytes none = Unit
IsWithin max_bytes (some len) = len ≤ max_bytes

exceeds-IsWithin :
    (max_bytes : ℕ) (o : Option ℕ) → (exceeds max_bytes o ≡ false) ↔ IsWithin max_bytes o
exceeds-IsWithin max_bytes none = ground arith
exceeds-IsWithin max_bytes (some len) = ground arith

-- With a cap below 2^64 - 1, `read_limited` answers a body exactly when a length in the header
-- is within the cap, no chunk is an error, and the body is all that was received and is within
-- the cap.
pub read_limited-received :
    (max_bytes : ℕ) (content_length : Option ℕ) (stream : List (Result String Bytes)) (body : Bytes)
    → max_bytes < u64_max
    → (read_limited max_bytes content_length stream ≡ ok body) ↔ (
        IsWithin max_bytes content_length
        × IsComplete stream
        × (body ≡ received stream)
        × (length body ≤ max_bytes))
unfolding read_limited
read_limited-received max_bytes content_length stream body small = (
  λ h. elim (Bool-cases (exceeds max_bytes content_length)) [
    | inl over ↦ absurd (ground arith)
    | inr fits ↦
        let (c, e, l) =
          read_chunks-IsComplete max_bytes [] stream body small (omega arith) (ground arith) in
        ((exceeds-IsWithin max_bytes content_length).0 fits, c, e, l)
  ],
  λ (w, c, e, l). ground (
    arith,
    (exceeds-IsWithin max_bytes content_length).1 w,
    read_chunks-fits max_bytes [] stream small c (subst (λ s. length s ≤ max_bytes) e l),
  ),
)

read_prefix_from-take :
    (max_bytes : ℕ) (body : Bytes) (stream : List (Result String Bytes))
    → length body ≤ max_bytes
    → read_prefix_from max_bytes body stream
      ≡ body ++ take (max_bytes - length body) (received stream)
unfolding read_prefix_from take
read_prefix_from-take max_bytes body [] h =
    rw (take-nil {A = ℕ} (max_bytes - length body)) (sym (append-nil body))
read_prefix_from-take max_bytes body (err e ∷ stream) h =
    rw (take-nil {A = ℕ} (max_bytes - length body)) (sym (append-nil body))
read_prefix_from-take max_bytes body (ok chunk ∷ stream) h =
    let left = max_bytes - length body in
    let later = received stream in
    elim (Bool-cases (ltb (length body) max_bytes)) [
      | inr full ↦
          let none_left : left ≡ 0 = ground arith in rw (full, none_left) (sym (append-nil body))
      | inl more ↦ elim (Bool-cases (leb left (length chunk))) [
        | inl enough ↦
            let m : min (length chunk) left ≡ left = ground arith in
            rw (more, enough, m, take-append_left left chunk later (leb→le _ _ enough)) refl
        | inr short ↦
            let m : min (length chunk) left ≡ length chunk = ground arith in
            let len : length (body ++ chunk) ≡ length body + length chunk =
              length-append body chunk in
            let rest = read_prefix_from-take max_bytes (body ++ chunk) stream (ground arith) in
            let e : max_bytes - length (body ++ chunk) ≡ left - length chunk = ground arith in
            rw
              (
                more,
                short,
                m,
                take-all (length chunk) chunk (ground arith),
                rest,
                e,
                take-append_right left chunk later (ground arith),
              )
              (append_assoc body chunk (take (left - length chunk) later))
      ]
    ]

-- `read_prefix` reads what is received before the first error, up to the limit.
pub read_prefix-take :
    (max_bytes : ℕ) (stream : List (Result String Bytes))
    → read_prefix max_bytes stream ≡ take max_bytes (received stream)
unfolding read_prefix
read_prefix-take max_bytes stream =
    let e : max_bytes - 0 ≡ max_bytes = omega arith in
    read_prefix_from-take max_bytes [] stream (omega arith) ∙ ap (λ n. take n (received stream)) e
