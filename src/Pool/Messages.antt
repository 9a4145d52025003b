-- ===== src/Pool/Messages.antt =====
-- encode_message and read_message of reaper/pool.py. Pickle is a parameter: `dumps`, and `loads`, which
-- raises (none), gives a mapping, or gives something else (some none).
use reaper.Base.{
  ℕ, ◌+◌, ◌*◌, ◌/◌, ◌%◌, ◌≡◌, refl, sym, ◌∙◌, ap, Option, none, some, false, List, [], ◌∷◌, ◌++◌,
  length, if◌then◌else◌, ltb, Bool-cases, inl, inr, arith,
}
use mathlib.Core.Option.{some-injective}
use reaper.Pool.Frames.{read_bytes, read_bytes-front}

abbrev pub max_msg : ℕ
max_msg = 67108864

-- `struct.Struct("!I")`: four bytes, the highest first.
abbrev pub pack : ℕ → List ℕ
pack n = n / 16777216 ∷ n / 65536 % 256 ∷ n / 256 % 256 ∷ n % 256 ∷ []

abbrev pub unpack : List ℕ → ℕ
unpack [] = 0
unpack (b ∷ bs) = go b bs
  where
    go : ℕ → List ℕ → ℕ
    go n [] = n
    go n (c ∷ cs) = go (n * 256 + c) cs

unpack-pack : (n : ℕ) → unpack (pack n) ≡ n
unpack-pack n = omega arith

-- What a read of the socket gives: nothing to be had, an exception, or a message and the bytes after it.
pub data Received {ℓ} (V : Type ℓ) : Type ℓ where
  nothing raised : Received V
  message : V → List ℕ → Received V

module _ {ℓ} {V : Type ℓ} (dumps : V → List ℕ) (loads : List ℕ → Option (Option V)) where
  -- `none` is the ValueError of a note that is too big.
  unfoldable pub encode_message : V → Option (List ℕ)
  encode_message value =
      if ltb max_msg (length (dumps value))
      then none
      else some (pack (length (dumps value)) ++ dumps value)

  abbrev pub unpickled : Option (Option V) → List ℕ → Received V
  unpickled none rest = raised
  unpickled (some none) rest = nothing
  unpickled (some (some value)) rest = message value rest

  abbrev pub read_body : Option (List ℕ × List ℕ) → Received V
  read_body none = nothing
  read_body (some (body, rest)) = unpickled (loads body) rest

  abbrev pub read_sized : (ℕ → ℕ) → Option (List ℕ × List ℕ) → Received V
  read_sized chunk none = nothing
  read_sized chunk (some (head, rest)) =
      if ltb max_msg (unpack head) then nothing else read_body (read_bytes chunk (unpack head) rest)

  -- The chunks of the two reads are independent.
  unfoldable pub read_message : (ℕ → ℕ) → (ℕ → ℕ) → List ℕ → Received V
  read_message chunk_head chunk_body stream = read_sized chunk_body (read_bytes chunk_head 4 stream)

  read_sized-pack :
      (chunk : ℕ → ℕ) (value : V) (rest : List ℕ)
      → ltb max_msg (length (dumps value)) ≡ false
      → loads (dumps value) ≡ some (some value)
      → read_sized chunk (some (pack (length (dumps value)), dumps value ++ rest))
        ≡ message value rest
  read_sized-pack chunk value rest small back =
      rw
        (unpack-pack (length (dumps value)), small, read_bytes-front chunk (dumps value) rest, back)
        refl

  frame_of :
      (value : V) (frame : List ℕ)
      → ltb max_msg (length (dumps value)) ≡ false
      → encode_message value ≡ some frame
      → frame ≡ pack (length (dumps value)) ++ dumps value
  unfolding encode_message
  frame_of value frame small encoded = some-injective _ _ (
      sym encoded
      ∙ ap (λ b. if b then none else some (pack (length (dumps value)) ++ dumps value)) small)

  -- An encoded message is read back whole, in whatever chunks the socket gives its bytes, and the bytes
  -- behind it are left for the next read, for a value that pickle gives back.
  pub read_message-encode_message :
      (chunk_head chunk_body : ℕ → ℕ) (value : V) (frame rest : List ℕ)
      → loads (dumps value) ≡ some (some value)
      → encode_message value ≡ some frame
      → read_message chunk_head chunk_body (frame ++ rest) ≡ message value rest
  unfolding encode_message read_message
  read_message-encode_message chunk_head chunk_body value frame rest back encoded =
      elim (Bool-cases (ltb max_msg (length (dumps value)))) [
        | inl big ↦ absurd (ground (arith))
        | inr small ↦
            ap (λ f. read_sized chunk_body (read_bytes chunk_head 4 (f ++ rest)))
              (frame_of value frame small encoded)
            ∙ ap (read_sized chunk_body)
                (read_bytes-front chunk_head (pack (length (dumps value))) (dumps value ++ rest))
            ∙ read_sized-pack chunk_body value rest small back
      ]
