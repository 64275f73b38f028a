-- ===== src/Services/FetchBody/Cap.antt =====
-- The cap of http-fetch-body.ts: what is kept of a stream.
use stellara.Prelude.{
  ℕ, zero, suc, ◌+◌, ◌-◌, ◌≤◌, some, List, [], ◌∷◌, ◌++◌, leb, ltb, length, take, length-append,
  ◌≡◌, refl, sym, ap, ◌∙◌, arith, Bool-cases, inl, inr,
}
use mathlib.Core.List.{append_assoc, append-nil}
use stellara.Services.FetchBody.{
  max_body_bytes, Read, chunk, DrainState, outcome, append_chunk_or_truncate, concat_chunks,
  drain_reader, read_body_with_cap,
}

-- A stream of these chunks.
abbrev pub reads_of : List (List ℕ) → List Read
reads_of [] = []
reads_of (bytes ∷ chunks) = chunk bytes ∷ reads_of chunks

concat-append :
    (xs ys : List (List ℕ)) → concat_chunks (xs ++ ys) ≡ concat_chunks xs ++ concat_chunks ys
unfolding concat_chunks
concat-append [] ys = refl
concat-append (x ∷ xs) ys =
    ap (λ z. x ++ z) (concat-append xs ys)
    ∙ sym (append_assoc x (concat_chunks xs) (concat_chunks ys))

concat-snoc :
    (xs : List (List ℕ)) (y : List ℕ) → concat_chunks (xs ++ (y ∷ [])) ≡ concat_chunks xs ++ y
unfolding concat_chunks
concat-snoc xs y = concat-append xs (y ∷ []) ∙ ap (λ z. concat_chunks xs ++ z) (append-nil y)

take-all : (n : ℕ) (xs : List ℕ) → length xs ≤ n → take n xs ≡ xs
take-all zero [] h = refl
take-all zero (x ∷ xs) h = ground arith
take-all (suc n) [] h = refl
take-all (suc n) (x ∷ xs) h = ground (arith, take-all n xs)

take-append :
    (n : ℕ) (xs ys : List ℕ) → length xs ≤ n → take n (xs ++ ys) ≡ xs ++ take (n - length xs) ys
take-append n [] ys h = ground arith
take-append zero (x ∷ xs) ys h = ground arith
take-append (suc n) (x ∷ xs) ys h = ground (arith, take-append n xs ys)

take-append_left : (n : ℕ) (xs ys : List ℕ) → n ≤ length xs → take n (xs ++ ys) ≡ take n xs
take-append_left zero xs ys h = refl
take-append_left (suc n) [] ys h = ground arith
take-append_left (suc n) (x ∷ xs) ys h = ground (arith, take-append_left n xs ys)

-- What is kept of the chunks so far is all of them, and no more than the cap.
abbrev IsFilled : ℕ → DrainState → Type 0
IsFilled cap state = (length (concat_chunks state.chunks) ≡ state.total) × (state.total ≤ cap)

module _ (cap : ℕ) where
  drain-take :
      (chunks : List (List ℕ)) (state : DrainState)
      → IsFilled cap state
      → drain_reader cap state (reads_of chunks)
        ≡ outcome
            (take cap (concat_chunks state.chunks ++ concat_chunks chunks))
            (ltb cap (length (concat_chunks state.chunks ++ concat_chunks chunks)))
  unfolding drain_reader append_chunk_or_truncate concat_chunks
  drain-take [] state f =
      rw (append-nil (concat_chunks state.chunks))
        (ground (arith, take-all cap (concat_chunks state.chunks)))
  drain-take (bytes ∷ chunks) state f =
      let kept : List ℕ = concat_chunks state.chunks in
      let rest : List ℕ = concat_chunks chunks in
      let room : ℕ = cap - state.total in
      elim (Bool-cases (leb (length bytes) room)) [
        | inl fits ↦
            let state' : DrainState = record {
              chunks = state.chunks ++ (bytes ∷ []);
              total = state.total + length bytes;
            } in
            let snoc = concat-snoc state.chunks bytes in
            let later =
              drain-take chunks state'
                (ground (arith, snoc, length-append kept bytes), ground arith) in
            ground (arith, fits, later, snoc, append_assoc kept bytes rest)
        | inr over ↦
            let cut =
              take-append cap kept (bytes ++ rest) (ground arith)
              ∙ ap (λ z. kept ++ z)
                  (take-append_left (cap - length kept) bytes rest (ground arith)) in
            ground (
              arith,
              over,
              cut,
              concat-snoc state.chunks (take room bytes),
              length-append kept (bytes ++ rest),
              length-append bytes rest,
            )
      ]

-- A body whose stream gives chunks until it is done is read as the first `MAX_BODY_BYTES` bytes of
-- the chunks together, and is marked as truncated exactly where they hold more bytes.
pub read_body-take :
    (chunks : List (List ℕ))
    → read_body_with_cap (some (reads_of chunks))
      ≡ outcome
          (take max_body_bytes (concat_chunks chunks))
          (ltb max_body_bytes (length (concat_chunks chunks)))
unfolding read_body_with_cap concat_chunks
read_body-take chunks =
    drain-take max_body_bytes chunks (record { chunks = []; total = 0 }) (refl, omega arith)
