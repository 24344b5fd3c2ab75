-- ===== src/Crypto/Aes/Fit.antt =====
-- The key of aes-cbc_keyplain.cpp against its description.
use smoll.Base.{
  ℕ, zero, suc, ◌+◌, ◌-◌, ◌≤◌, ◌<◌, ◌≡◌, refl, sym, ap, ◌∙◌, [], ◌∷◌, ◌++◌, false, Bytes, ltb,
  arith, length, take, replicate, length-append, length-take, length-replicate, lt→ltb, ltb→lt,
  Bool-cases, inl, inr,
}
use smoll.Crypto.Aes.{key_length, fit_key}

take-append_le : (n : ℕ) (s t : Bytes) → n ≤ length s → take n (s ++ t) ≡ take n s
take-append_le zero s t h = refl
take-append_le (suc n) [] t h = absurd (omega arith)
take-append_le (suc n) (c ∷ s) t h = ap (λ l. c ∷ l) (take-append_le n s t (omega arith))

take-all : (n : ℕ) (s t : Bytes) → n ≡ length s → take n (s ++ t) ≡ s
take-all zero [] t h = refl
take-all zero (c ∷ s) t h = absurd (omega arith)
take-all (suc n) [] t h = absurd (omega arith)
take-all (suc n) (c ∷ s) t h = ap (λ l. c ∷ l) (take-all n s t (omega arith))

take-replicate : (n k : ℕ) (a : ℕ) → n ≤ k → take n (replicate k a) ≡ replicate n a
take-replicate zero k a h = refl
take-replicate (suc n) zero a h = absurd (omega arith)
take-replicate (suc n) (suc k) a h = ap (λ l. a ∷ l) (take-replicate n k a (omega arith))

take-fill :
    (n k : ℕ) (s : Bytes)
    → length s ≤ n
    → n ≤ k + length s
    → take n (s ++ replicate k b'*') ≡ s ++ replicate (n - length s) b'*'
take-fill zero k [] h j = refl
take-fill zero k (c ∷ s) h j = absurd (omega arith)
take-fill (suc n) k [] h j =
    let all : suc n - 0 ≡ suc n = omega arith in
    rw all (take-replicate (suc n) k b'*' (omega arith))
take-fill (suc n) k (c ∷ s) h j =
    let less : suc n - suc (length s) ≡ n - length s = omega arith in
    rw less (ap (λ l. c ∷ l) (take-fill n k s (omega arith) (omega arith)))

take-take : (n : ℕ) (s t : Bytes) → n ≤ length s → take n (take n s ++ t) ≡ take n s
take-take zero s t h = refl
take-take (suc n) [] t h = absurd (omega arith)
take-take (suc n) (c ∷ s) t h = ap (λ l. c ∷ l) (take-take n s t (omega arith))

fitted_long :
    (s : Bytes)
    → key_length < length s
    → fit_key s ≡ take key_length (s ++ replicate key_length b'*')
unfolding fit_key
fitted_long s h = rw (lt→ltb key_length (length s) h) (
    take-take key_length s (0 ∷ []) (omega arith)
    ∙ sym (take-append_le key_length s (replicate key_length b'*') (omega arith)))

fitted_short :
    (s : Bytes)
    → length s ≤ key_length
    → fit_key s ≡ take key_length (s ++ replicate key_length b'*')
unfolding fit_key
fitted_short s h = elim (Bool-cases (ltb (length s) key_length)) [
  | inl short ↦
      rw (not_long, short)
        (take-all key_length (s ++ fill) (0 ∷ []) (
            omega
              (arith, length-append s fill, length-replicate {A = ℕ} (key_length - length s) b'*'))
          ∙ sym (take-fill key_length key_length s h (omega arith)))
  | inr full ↦
      let exact : key_length ≡ length s = ground arith in
      rw (not_long, full)
        (take-all key_length s (0 ∷ []) exact ∙ sym (take-all key_length s _ exact))
]
  where
    fill : Bytes
    fill = replicate (key_length - length s) b'*'

    not_long : ltb key_length (length s) ≡ false
    not_long = ground arith

-- The key is the first 16 bytes of the key text followed by '*' without end, so 16 bytes for every
-- key text.
pub fit_key_fills :
    (s : Bytes)
    → (fit_key s ≡ take key_length (s ++ replicate key_length b'*'))
      × (length (fit_key s) ≡ key_length)
fit_key_fills s =
    (fills, rw fills (omega (arith, length-take {0}, length-append {0}, length-replicate {0})))
  where
    fills : fit_key s ≡ take key_length (s ++ replicate key_length b'*')
    fills = elim (Bool-cases (ltb key_length (length s))) [
      | inl long ↦ fitted_long s (ltb→lt _ _ long)
      | inr short ↦ fitted_short s (ground arith)
    ]
