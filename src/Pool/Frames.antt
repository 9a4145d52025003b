-- ===== src/Pool/Frames.antt =====
-- read_bytes of reaper/pool.py: exactly so many bytes from a socket that gives them in chunks. A byte is
-- a number; the n-th receive gives up to `chunk n + 1` bytes of the stream, none at its end.
use mathlib.Core.List.{append-nil, append_assoc}
use reaper.Base.{
  ℕ, zero, suc, ◌-◌, ◌≤◌, min, ◌≡◌, refl, ◌∙◌, ap, Option, none, some, List, [], ◌∷◌, ◌++◌, length,
  arith,
}

abbrev pub take : ℕ → List ℕ → List ℕ
take zero xs = []
take (suc n) [] = []
take (suc n) (x ∷ xs) = x ∷ take n xs

abbrev pub drop : ℕ → List ℕ → List ℕ
drop zero xs = xs
drop (suc n) [] = []
drop (suc n) (x ∷ xs) = drop n xs

-- `loop.sock_recv(sock, requested)` on the bytes that are left.
abbrev pub sock_recv : (ℕ → ℕ) → ℕ → ℕ → List ℕ → List ℕ × List ℕ
sock_recv chunk n requested stream =
    (take (min requested (suc (chunk n))) stream, drop (min requested (suc (chunk n))) stream)

-- `while len(data) < size`, on the bytes that remain: every round but the last of a closed stream
-- receives one or more, so `size` rounds of fuel are given.
unfoldable pub read_loop : ℕ → (ℕ → ℕ) → ℕ → ℕ → List ℕ → List ℕ → Option (List ℕ × List ℕ)
read_loop zero chunk n remaining got stream = some (got, stream)
read_loop (suc fuel) chunk n zero got stream = some (got, stream)
read_loop (suc fuel) chunk n (suc more) got [] = none
read_loop (suc fuel) chunk n (suc more) got (b ∷ stream) =
    let (part, rest) = sock_recv chunk n (suc more) (b ∷ stream) in
    read_loop fuel chunk (suc n) (suc more - length part) (got ++ part) rest

unfoldable pub read_bytes : (ℕ → ℕ) → ℕ → List ℕ → Option (List ℕ × List ℕ)
unfolding read_loop
read_bytes chunk size stream = read_loop size chunk 0 size [] stream

length-take : (n : ℕ) (xs : List ℕ) → length (take n xs) ≡ min n (length xs)
length-take zero xs = omega arith
length-take (suc n) [] = omega arith
length-take (suc n) (x ∷ xs) = omega (arith, length-take n xs)

length-drop : (n : ℕ) (xs : List ℕ) → length (drop n xs) ≡ length xs - n
length-drop zero xs = omega arith
length-drop (suc n) [] = omega arith
length-drop (suc n) (x ∷ xs) = omega (arith, length-drop n xs)

take-append : (k : ℕ) (xs rest : List ℕ) → k ≤ length xs → take k (xs ++ rest) ≡ take k xs
take-append zero xs rest h = refl
take-append (suc k) [] rest h = absurd (omega (arith, h))
take-append (suc k) (x ∷ xs) rest h = ap (λ ys. x ∷ ys) (take-append k xs rest (omega (arith, h)))

drop-append : (k : ℕ) (xs rest : List ℕ) → k ≤ length xs → drop k (xs ++ rest) ≡ drop k xs ++ rest
drop-append zero xs rest h = refl
drop-append (suc k) [] rest h = absurd (omega (arith, h))
drop-append (suc k) (x ∷ xs) rest h = drop-append k xs rest (omega (arith, h))

take-drop : (k : ℕ) (xs : List ℕ) → take k xs ++ drop k xs ≡ xs
take-drop zero xs = refl
take-drop (suc k) [] = refl
take-drop (suc k) (x ∷ xs) = ap (λ ys. x ∷ ys) (take-drop k xs)

-- The bytes at the front of a stream are read in any chunks, and the rest is left.
read_loop-front :
    (fuel : ℕ) (chunk : ℕ → ℕ) (n : ℕ) (bytes got rest : List ℕ)
    → length bytes ≤ fuel
    → read_loop fuel chunk n (length bytes) got (bytes ++ rest) ≡ some (got ++ bytes, rest)
unfolding read_loop
read_loop-front zero chunk n [] got rest h = rw (append-nil got) refl
read_loop-front zero chunk n (b ∷ bs) got rest h = absurd (omega (arith, h))
read_loop-front (suc fuel) chunk n [] got rest h = rw (append-nil got) refl
read_loop-front (suc fuel) chunk n (b ∷ bs) got rest h =
    step (min (suc (length bs)) (suc (chunk n))) (omega arith) (omega arith)
      (read_loop-front fuel chunk (suc n))
  where
    left_over :
        (k : ℕ)
        → k ≤ length (b ∷ bs)
        → suc (length bs) - length (take k (b ∷ bs)) ≡ length (drop k (b ∷ bs))
    left_over k high = omega (arith, length-take k (b ∷ bs), length-drop k (b ∷ bs), high)

    step :
        (k : ℕ)
        → 1 ≤ k
        → k ≤ length (b ∷ bs)
        → ((bytes got rest : List ℕ)
            → length bytes ≤ fuel
            → read_loop fuel chunk (suc n) (length bytes) got (bytes ++ rest)
              ≡ some (got ++ bytes, rest))
        → read_loop fuel chunk
            (suc n)
            (suc (length bs) - length (take k (b ∷ bs ++ rest)))
            (got ++ take k (b ∷ bs ++ rest))
            (drop k (b ∷ bs ++ rest))
          ≡ some (got ++ b ∷ bs, rest)
    step k low high ih =
        rw (take-append k (b ∷ bs) rest high, drop-append k (b ∷ bs) rest high, left_over k high)
          (ih (drop k (b ∷ bs)) (got ++ take k (b ∷ bs)) rest
              (omega (arith, length-drop k (b ∷ bs), h, low))
            ∙ ap (λ x. some (x, rest))
                (append_assoc got (take k (b ∷ bs)) (drop k (b ∷ bs))
                  ∙ ap (λ x. got ++ x) (take-drop k (b ∷ bs))))

-- Bytes at the front of a stream are read whole, in whatever chunks they come, and the bytes behind
-- them are left. As many rounds as bytes are enough.
pub read_bytes-front :
    (chunk : ℕ → ℕ) (bytes rest : List ℕ)
    → read_bytes chunk (length bytes) (bytes ++ rest) ≡ some (bytes, rest)
unfolding read_bytes
read_bytes-front chunk bytes rest =
    read_loop-front (length bytes) chunk 0 bytes [] rest (omega arith)
