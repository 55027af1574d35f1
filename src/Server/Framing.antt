-- ===== src/Server/Framing.antt =====
-- exchange/src/order_server.rs: the messages that `receive` takes do not depend on how the network
-- cuts the stream.
use rust_low_latency_trading.Prelude.{
  ℕ, zero, suc, ◌≤◌, ◌<◌, ◌≡◌, refl, sym, ap, ◌∙◌, arith, inl, inr, Bool-cases, Option-cases, none,
  some, List, [], ◌∷◌, ◌++◌, ltb,
}
use rust_low_latency_trading.Prelude.Lists.{
  length, take, drop, length-append, take-append, drop-append, length-drop, length-take,
  append_assoc, take_all, drop_all, All,
}
use rust_low_latency_trading.Net.{Bytes}
use rust_low_latency_trading.Net.Wire.{Wire, stream}
use rust_low_latency_trading.Server.Connection.{parse, parse_all}

module _ {M : Type 0} {Fits : M → Type 0} {size : ℕ} (w : Wire M Fits size) where
  -- Bytes hold the messages that their consecutive slices of the size of one are, and what is left is
  -- less than a message.
  pub data Holds : Bytes → List M → Bytes → Type 0 where
    too_short : (b : Bytes) → length b < size → Holds b [] b
    a_message :
        (b : Bytes) (m : M) (ms : List M) (left : Bytes)
        → size ≤ length b
        → w.from_bytes (take size b) ≡ some m
        → Holds (drop size b) ms left
        → Holds b (m ∷ ms) left

  -- A buffer that holds no message stays.
  pub parse_short : (fuel : ℕ) (b : Bytes) → length b < size → parse w fuel b ≡ ([], b)
  unfolding parse
  parse_short zero b h = refl
  parse_short (suc fuel) b h = ground arith

  parse-none :
      (fuel : ℕ) (b : Bytes)
      → size ≤ length b
      → w.from_bytes (take size b) ≡ none
      → parse w (suc fuel) b ≡ parse w fuel (drop 1 b)
  unfolding parse
  parse-none fuel b h none_read = rw none_read (ground arith)

  parse-some :
      (fuel : ℕ) (b : Bytes) (m : M)
      → size ≤ length b
      → w.from_bytes (take size b) ≡ some m
      → parse w (suc fuel) b ≡ (m ∷ (parse w fuel (drop size b)).0, (parse w fuel (drop size b)).1)
  unfolding parse
  parse-some fuel b m h some_read = rw some_read (ground arith)

  -- Fuel for each byte is enough.
  parse_fuel : (f g : ℕ) (b : Bytes) → length b ≤ f → length b ≤ g → parse w f b ≡ parse w g b
  parse_fuel zero zero b hf hg = refl
  parse_fuel zero (suc g) b hf hg =
      parse_short zero b (omega (arith, w.size_pos))
      ∙ sym (parse_short (suc g) b (omega (arith, w.size_pos)))
  parse_fuel (suc f) zero b hf hg =
      parse_short (suc f) b (omega (arith, w.size_pos))
      ∙ sym (parse_short zero b (omega (arith, w.size_pos)))
  parse_fuel (suc f) (suc g) b hf hg = elim (Bool-cases (ltb (length b) size)) [
    | inl short ↦ parse_short (suc f) b (ground arith) ∙ sym (parse_short (suc g) b (ground arith))
    | inr long ↦ elim (Option-cases (w.from_bytes (take size b))) [
      | inl e ↦
          parse-none f b (ground arith) e
          ∙ parse_fuel f g (drop 1 b) (ground (arith, length-drop 1 b, w.size_pos))
              (ground (arith, length-drop 1 b, w.size_pos))
          ∙ sym (parse-none g b (ground arith) e)
      | inr (m, e) ↦
          parse-some f b m (ground arith) e
          ∙ ap (λ (r : List M × Bytes). (m ∷ r.0, r.1))
              (parse_fuel f g (drop size b) (ground (arith, length-drop size b, w.size_pos))
                (ground (arith, length-drop size b, w.size_pos)))
          ∙ sym (parse-some g b m (ground arith) e)
    ]
  ]

  -- The messages of some bytes, and then those of what they left and more bytes.
  abbrev pub joined : List M × Bytes → List M × Bytes → List M × Bytes
  joined first second = (first.0 ++ second.0, second.1)

  -- What a short buffer leaves is the buffer itself.
  joined_short :
      (f g h : ℕ) (b c : Bytes)
      → length b < size
      → length (b ++ c) ≤ g
      → length (b ++ c) ≤ h
      → parse w g (b ++ c) ≡ joined (parse w f b) (parse w h ((parse w f b).1 ++ c))
  joined_short f g h b c short hg hh = rw (parse_short f b short) (parse_fuel g h (b ++ c) hg hh)

  parse-append :
      (f g h : ℕ) (b c : Bytes)
      → length b ≤ f
      → length (b ++ c) ≤ g
      → length (b ++ c) ≤ h
      → parse w g (b ++ c) ≡ joined (parse w f b) (parse w h ((parse w f b).1 ++ c))
  parse-append zero g h b c hf hg hh = joined_short zero g h b c (omega (arith, w.size_pos)) hg hh
  parse-append (suc f) zero h b c hf hg hh =
      joined_short (suc f) zero h b c (omega (arith, w.size_pos, length-append b c)) hg hh
  parse-append (suc f) (suc g) h b c hf hg hh = elim (Bool-cases (ltb (length b) size)) [
    | inl short ↦ joined_short (suc f) (suc g) h b c (ground arith) hg hh
    | inr long ↦
        let whole : size ≤ length b = ground arith in
        let wider : size ≤ length (b ++ c) = omega (arith, length-append b c) in
        elim (Option-cases (w.from_bytes (take size b))) [
          | inl e ↦
              let dropped = drop-append 1 b c (omega (arith, w.size_pos)) in
              let shorter = length-drop 1 b (omega (arith, w.size_pos)) in
              rw
                (
                  parse-none f b whole e,
                  parse-none g (b ++ c) wider (rw (take-append size b c whole) e),
                  dropped,
                )
                (parse-append f g h (drop 1 b) c (omega arith)
                  (omega (arith, length-append b c, length-append (drop 1 b) c))
                  (omega (arith, length-append b c, length-append (drop 1 b) c)))
          | inr (m, e) ↦
              let dropped = drop-append size b c whole in
              let shorter = length-drop size b whole in
              rw
                (
                  parse-some f b m whole e,
                  parse-some g (b ++ c) m wider (rw (take-append size b c whole) e),
                  dropped,
                )
                (ap (λ (r : List M × Bytes). (m ∷ r.0, r.1))
                  (parse-append f g h (drop size b) c (omega (arith, w.size_pos))
                    (omega (arith, w.size_pos, length-append b c, length-append (drop size b) c))
                    (omega (arith, w.size_pos, length-append b c, length-append (drop size b) c))))
        ]
  ]

  -- A message at the front of the buffer is taken.
  parse-to_bytes :
      (fuel : ℕ) (m : M) (rest : Bytes)
      → Fits m
      → parse w (suc fuel) (w.to_bytes m ++ rest)
        ≡ (m ∷ (parse w fuel rest).0, (parse w fuel rest).1)
  parse-to_bytes fuel m rest fits =
      let sized = w.length-to_bytes m in
      rw (drop-append size (w.to_bytes m) rest (omega arith), drop_all size (w.to_bytes m) sized) at
        (parse-some fuel (w.to_bytes m ++ rest) m (omega (arith, length-append (w.to_bytes m) rest))
          (rw
            (take-append size (w.to_bytes m) rest (omega arith), take_all size (w.to_bytes m) sized)
            (w.from_bytes-to_bytes m fits)))

  -- The messages of a stream are all taken, and the bytes of a message that is not whole stay.
  pub parse-stream :
      (fuel : ℕ) (ms : List M) (rest : Bytes)
      → All Fits ms
      → length rest < size
      → length (stream w ms ++ rest) ≤ fuel
      → parse w fuel (stream w ms ++ rest) ≡ (ms, rest)
  parse-stream fuel [] rest fits short h = parse_short fuel rest short
  parse-stream zero (m ∷ ms) rest fits short h = absurd (
      omega (
        arith,
        w.size_pos,
        w.length-to_bytes m,
        length-append (w.to_bytes m ++ stream w ms) rest,
        length-append (w.to_bytes m) (stream w ms),
      ))
  parse-stream (suc fuel) (m ∷ ms) rest fits short h =
      rw (append_assoc (w.to_bytes m) (stream w ms) rest) (
        parse-to_bytes fuel m (stream w ms ++ rest) (fits.0)
        ∙ ap (λ (r : List M × Bytes). (m ∷ r.0, r.1))
            (parse-stream fuel ms rest (fits.1) short (
              omega (
                arith,
                w.size_pos,
                w.length-to_bytes m,
                length-append (w.to_bytes m ++ stream w ms) rest,
                length-append (w.to_bytes m) (stream w ms),
                length-append (stream w ms) rest,
              ))))

  -- What stays is less than a message.
  parse_left :
      (f : ℕ) (b : Bytes)
      → length b ≤ f
      → (length (parse w f b).1 < size) × (length (parse w f b).1 ≤ length b)
  parse_left zero b h =
      rw (parse_short zero b (omega (arith, w.size_pos))) (omega (arith, w.size_pos))
  parse_left (suc f) b h = elim (Bool-cases (ltb (length b) size)) [
    | inl short ↦ rw (parse_short (suc f) b (ground arith)) (ground arith)
    | inr long ↦
        let whole : size ≤ length b = ground arith in
        elim (Option-cases (w.from_bytes (take size b))) [
          | inl e ↦
              let shorter = length-drop 1 b (omega (arith, w.size_pos)) in
              rw (parse-none f b whole e) (omega (arith, parse_left f (drop 1 b) (omega arith)))
          | inr (m, e) ↦
              let shorter = length-drop size b whole in
              rw (parse-some f b m whole e)
                (omega (arith, parse_left f (drop size b) (omega (arith, w.size_pos))))
        ]
  ]

  -- More bytes after some that were parsed already.
  pub parse_all-append :
      (b c : Bytes)
      → parse_all w (b ++ c) ≡ joined (parse_all w b) (parse_all w ((parse_all w b).1 ++ c))
  parse_all-append b c =
      let left = parse_left (length b) b (omega arith) in
      let shorter : length ((parse_all w b).1 ++ c) ≤ length (b ++ c) =
        omega (arith, length-append b c, length-append ((parse_all w b).1) c) in
      parse-append (length b) (length (b ++ c)) (length (b ++ c)) b c (omega arith) (omega arith)
        (omega arith)
      ∙ ap (joined (parse_all w b)) (
          parse_fuel (length (b ++ c)) (length ((parse_all w b).1 ++ c)) ((parse_all w b).1 ++ c)
            shorter (omega arith))

  pub parse_all_short : (b : Bytes) → length (parse_all w b).1 < size
  parse_all_short b = (parse_left (length b) b (omega arith)).0

  -- The code takes the messages that the bytes hold.
  parse-Holds :
      (fuel : ℕ) (b : Bytes) → length b ≤ fuel → Holds b (parse w fuel b).0 (parse w fuel b).1
  parse-Holds zero b h =
      let short : length b < size = omega (arith, w.size_pos) in
      rw (parse_short zero b short) (too_short b short)
  parse-Holds (suc fuel) b h = elim (Bool-cases (ltb (length b) size)) [
    | inl less ↦
        let short : length b < size = ground (arith, less) in
        rw (parse_short (suc fuel) b short) (too_short b short)
    | inr more ↦
        let long : size ≤ length b = ground (arith, more) in
        let (m, read) = w.from_bytes_sized (take size b) (length-take size b long) in
        rw (parse-some fuel b m long read) (
          a_message b m (parse w fuel (drop size b)).0 (parse w fuel (drop size b)).1 long read (
            parse-Holds fuel (drop size b) (omega (arith, length-drop size b long, w.size_pos, h))))
  ]

  pub parse_all-Holds : (b : Bytes) → Holds b (parse_all w b).0 (parse_all w b).1
  parse_all-Holds b = parse-Holds (length b) b (omega arith)
