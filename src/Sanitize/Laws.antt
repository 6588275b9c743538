-- ===== src/Sanitize/Laws.antt =====
-- pkg/log/sanitize.go: `sanitizeToken`.
use quota_lane.Prelude.{
  ℕ, zero, suc, ◌+◌, ◌-◌, ◌≤◌, ◌<◌, ◌≡◌, refl, ap, ap₂, All, inl, inr, List, [], ◌∷◌, ◌++◌, length,
  length-append, length-replicate, take, drop, replicate, arith, leb, if◌then◌else◌, Bool-cases,
}
use quota_lane.Sanitize.{star, sanitize_token, first_char}

length-take : (n : ℕ) (xs : List ℕ) → n ≤ length xs → length (take n xs) ≡ n
length-take zero xs h = refl
length-take (suc n) [] h = absurd (omega arith)
length-take (suc n) (x ∷ xs) h = ap suc (length-take n xs (omega arith))

length-drop : (n : ℕ) (xs : List ℕ) → length (drop n xs) ≡ length xs - n
length-drop zero xs = omega arith
length-drop (suc n) [] = omega arith
length-drop (suc n) (x ∷ xs) = omega (arith, length-drop n xs)

framed :
    (k : ℕ) (xs : List ℕ)
    → k + k ≤ length xs
    → length (take k xs ++ (replicate (length xs - (k + k)) star ++ drop (length xs - k) xs))
      ≡ length xs
framed k xs h = omega (
  arith,
  length-append (take k xs) (replicate (length xs - (k + k)) star ++ drop (length xs - k) xs),
  length-append (replicate (length xs - (k + k)) star) (drop (length xs - k) xs),
  length-replicate (length xs - (k + k)) star,
  length-take k xs (omega arith),
  length-drop (length xs - k) xs,
)

abbrev IsAscii : List ℕ → Type 0
IsAscii = All (λ b. b < 128)

take-IsAscii : (n : ℕ) (xs : List ℕ) → IsAscii xs → IsAscii (take n xs)
take-IsAscii zero xs h = tt
take-IsAscii (suc n) [] h = tt
take-IsAscii (suc n) (x ∷ xs) h = (h.0, take-IsAscii n xs h.1)

drop-IsAscii : (n : ℕ) (xs : List ℕ) → IsAscii xs → IsAscii (drop n xs)
drop-IsAscii zero xs h = h
drop-IsAscii (suc n) [] h = tt
drop-IsAscii (suc n) (x ∷ xs) h = drop-IsAscii n xs h.1

first_char_single : (xs : List ℕ) → IsAscii xs → length xs ≡ 1 → first_char xs ≡ xs
first_char_single [] a h = absurd (omega arith)
first_char_single (x ∷ []) a h = ground (arith, a.0)
first_char_single (x ∷ y ∷ xs) a h = absurd (omega arith)

short_ends :
    (value : List ℕ)
    → IsAscii value
    → 2 < length value
    → (first_char (take 1 value) ≡ take 1 value)
      × (first_char (drop (length value - 1) value) ≡ drop (length value - 1) value)
short_ends value a h = (
  first_char_single _ (take-IsAscii 1 value a) (length-take 1 value (omega arith)),
  first_char_single _ (drop-IsAscii (length value - 1) value a)
      (omega (arith, length-drop (length value - 1) value)),
)

-- A masked token of ASCII bytes is as long as the token.
pub length-sanitize_token :
    (value : List ℕ) → All (λ b. b < 128) value → length (sanitize_token value) ≡ length value
unfolding sanitize_token
length-sanitize_token value a = elim (Bool-cases (leb (length value) 8)) [
  | inl short ↦ elim (Bool-cases (leb (length value) 2)) [
    | inl tiny ↦ rw (short, tiny) (length-replicate (length value) star)
    | inr more ↦
        let ends = short_ends value a (ground arith) in
        rw (short, more, ends.0, ends.1) (framed 1 value (ground arith))
  ]
  | inr long ↦ rw long (framed 4 value (ground arith))
]

-- The number of bytes at each end that a masked token depends on.
abbrev pub shown : ℕ → ℕ
shown n = if leb n 8 then if leb n 2 then 0 else 1 else 4

-- Tokens of one length that agree in the bytes shown at the two ends (none up to 2 bytes, 1 up to 8
-- bytes, 4 above) are masked alike.
pub sanitize_token_hides :
    (v w : List ℕ)
    → length v ≡ length w
    → take (shown (length v)) v ≡ take (shown (length v)) w
    → drop (length v - shown (length v)) v ≡ drop (length v - shown (length v)) w
    → sanitize_token v ≡ sanitize_token w
unfolding sanitize_token
sanitize_token_hides v w n p q = elim (Bool-cases (leb (length v) 8)) [
  | inl short ↦ elim (Bool-cases (leb (length v) 2)) [
    | inl tiny ↦ rw (← n) (rw (short, tiny))
    | inr more ↦ rw (← n) (
        rw (short, more)
          (ap₂ (λ x y. first_char x ++ (replicate (length v - 2) star ++ first_char y))
            (rw (short, more) at p) (rw (short, more) at q)))
  ]
  | inr long ↦ rw (← n) (
      rw long
        (ap₂ (λ x y. x ++ (replicate (length v - 8) star ++ y)) (rw long at p) (rw long at q)))
]
