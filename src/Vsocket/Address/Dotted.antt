-- ===== src/Vsocket/Address/Dotted.antt =====
-- `inet_addr` (src/lib/vsocket.c) on four decimal numbers with dots between them.
use vmodem.Prelude.{
  is_decimal, decimal, decimal_digits, fold_digits, AllDigits, decimal_digits-AllDigits,
  fold_digits-decimal, ℕ, suc, ◌+◌, ◌-◌, ◌*◌, ◌%◌, ◌^◌, ◌≤◌, ◌<◌, ◌≡◌, refl, ap, ◌∙◌, bit_or,
  bit_or-above, true, false, ◌||◌, none, some, List, [], ◌∷◌, ◌++◌, ltb, ◌==◌, if◌then◌else◌, arith,
  Bool-cases, inl, inr, ◌⊎◌, length,
}
use vmodem.Vsocket.Address.{
  inaddr_none, read_octet, skip_dot, pack, read_octets, after_octet, accepted, inet_addr,
}

-- What may stand behind a number.
abbrev Stops : List ℕ → Type 0
Stops [] = Unit {0}
Stops (c ∷ cs) = is_decimal c ≡ false

read_octet-append :
    (ds rest : List ℕ) (s : ℕ × ℕ)
    → AllDigits ds
    → Stops rest
    → read_octet (ds ++ rest) s.0 s.1
      ≡ ((fold_digits 0x1_0000_0000 ds s).0, (fold_digits 0x1_0000_0000 ds s).1, rest)
unfolding read_octet
read_octet-append [] [] s h stop = refl
read_octet-append [] (c ∷ cs) s h stop = rw stop refl
read_octet-append (d ∷ ds) rest s (h, hs) stop =
    rw h (read_octet-append ds rest ((s.0 * 10 + (d - b'0')) % 0x1_0000_0000, s.1 + 1) hs stop)

-- The digits read back, modulo 2^32.
digits_value :
    (n : ℕ)
    → ((fold_digits 0x1_0000_0000 (decimal_digits n n) (0, 0)).0 ≡ n % 0x1_0000_0000)
      × (0 < (fold_digits 0x1_0000_0000 (decimal_digits n n) (0, 0)).1)
digits_value n = fold_digits-decimal 0x1_0000_0000 (λ n. omega arith) n n (omega arith)

abbrev digit_count : ℕ → ℕ
digit_count n = (fold_digits 0x1_0000_0000 (decimal_digits n n) (0, 0)).1

read_octet-decimal :
    (n : ℕ) (rest : List ℕ)
    → Stops rest
    → read_octet (decimal n ++ rest) 0 0 ≡ (n % 0x1_0000_0000, digit_count n, rest)
read_octet-decimal n rest stop =
    read_octet-append (decimal_digits n n) rest (0, 0) (decimal_digits-AllDigits n n (omega arith))
      stop
    ∙ ap (λ v. (v, digit_count n, rest)) (digits_value n).0

module _ (n : ℕ) (octets : List ℕ) where
  read_octets-large :
      (k : ℕ) (rest : List ℕ)
      → Stops rest
      → 255 < n % 0x1_0000_0000
      → read_octets (suc k) (decimal n ++ rest) octets ≡ none
  unfolding read_octets after_octet
  read_octets-large k rest stop h =
      ap (after_octet (read_octets k) k octets) (read_octet-decimal n rest stop) ∙ ground arith

  octet_kept : n % 0x1_0000_0000 ≤ 255 → (digit_count n == 0 || ltb 255 (n % 0x1_0000_0000)) ≡ false
  octet_kept h = ground (arith, digits_value n)

  read_octets-dot :
      (k : ℕ) (cs : List ℕ)
      → n % 0x1_0000_0000 ≤ 255
      → read_octets (suc (suc k)) (decimal n ++ (b'.' ∷ cs)) octets
        ≡ read_octets (suc k) cs (octets ++ ((n % 0x1_0000_0000) ∷ []))
  unfolding read_octets after_octet skip_dot
  read_octets-dot k cs h =
      let more : ltb 0 (suc k) ≡ true = ground arith in
      ap (after_octet (read_octets (suc k)) (suc k) octets) (read_octet-decimal n (b'.' ∷ cs) refl)
      ∙ rw (octet_kept h, more) refl

  read_octets-last :
      n % 0x1_0000_0000 ≤ 255
      → read_octets 1 (decimal n ++ []) octets ≡ some (octets ++ ((n % 0x1_0000_0000) ∷ []), [])
  unfolding read_octets after_octet
  read_octets-last h =
      ap (after_octet (read_octets 0) 0 octets) (read_octet-decimal n [] tt)
      ∙ rw (octet_kept h) refl

abbrev pub dotted : ℕ → ℕ → ℕ → ℕ → List ℕ
dotted a b c d =
    decimal a ++ (b'.' ∷ (decimal b ++ (b'.' ∷ (decimal c ++ (b'.' ∷ (decimal d ++ []))))))

-- What the value of an octet is to the code.
abbrev pub wrapped : ℕ → ℕ
wrapped n = n % 0x1_0000_0000

pack_sum :
    (a b c d : ℕ)
    → a ≤ 255
    → b ≤ 255
    → c ≤ 255
    → pack a b c d ≡ a + b * 2 ^ 8 + c * 2 ^ 16 + d * 2 ^ 24
unfolding pack
pack_sum a b c d ha hb hc =
    ap (λ t. bit_or (bit_or t (c * 2 ^ 16)) (d * 2 ^ 24)) (bit_or-above 8 a b (omega arith))
    ∙ ap (λ t. bit_or t (d * 2 ^ 24)) (bit_or-above 16 (a + b * 2 ^ 8) c (omega arith))
    ∙ bit_or-above 24 (a + b * 2 ^ 8 + c * 2 ^ 16) d (omega arith)

accepted_dotted :
    (a b c d : ℕ)
    → wrapped a ≤ 255
    → wrapped b ≤ 255
    → wrapped c ≤ 255
    → wrapped d ≤ 255
    → inet_addr (dotted a b c d)
      ≡ wrapped a + wrapped b * 2 ^ 8 + wrapped c * 2 ^ 16 + wrapped d * 2 ^ 24
unfolding inet_addr accepted
accepted_dotted a b c d ha hb hc hd =
    let all =
      read_octets-dot a [] 2 (decimal b ++ (b'.' ∷ (decimal c ++ (b'.' ∷ (decimal d ++ []))))) ha
      ∙ read_octets-dot b (wrapped a ∷ []) 1 (decimal c ++ (b'.' ∷ (decimal d ++ []))) hb
      ∙ read_octets-dot c (wrapped a ∷ wrapped b ∷ []) 0 (decimal d ++ []) hc
      ∙ read_octets-last d (wrapped a ∷ wrapped b ∷ wrapped c ∷ []) hd in
    ap accepted all ∙ pack_sum (wrapped a) (wrapped b) (wrapped c) (wrapped d) ha hb hc

-- Numbers with dots between them.
abbrev dots : List ℕ → List ℕ
dots [] = []
dots (n ∷ []) = decimal n ++ []
dots (n ∷ m ∷ ns) = decimal n ++ (b'.' ∷ dots (m ∷ ns))

abbrev HasLarge : List ℕ → Type 0
HasLarge [] = ⊥
HasLarge (n ∷ ns) = (255 < wrapped n) ⊎ HasLarge ns

-- One number that is too large, wherever it stands, makes the loop give up.
read_octets-HasLarge :
    (ns : List ℕ) (octets : List ℕ) → HasLarge ns → read_octets (length ns) (dots ns) octets ≡ none
read_octets-HasLarge [] octets h = elim h [ ]
read_octets-HasLarge (n ∷ []) octets (inl h) = read_octets-large n octets 0 [] tt h
read_octets-HasLarge (n ∷ []) octets (inr h) = elim h [ ]
read_octets-HasLarge (n ∷ m ∷ ns) octets (inl h) =
    read_octets-large n octets (suc (length ns)) (b'.' ∷ dots (m ∷ ns)) refl h
read_octets-HasLarge (n ∷ m ∷ ns) octets (inr h) = elim (Bool-cases (ltb 255 (wrapped n))) [
  | inl e ↦ read_octets-large n octets (suc (length ns)) (b'.' ∷ dots (m ∷ ns)) refl (ground arith)
  | inr e ↦
      read_octets-dot n octets (length ns) (dots (m ∷ ns)) (ground arith)
      ∙ read_octets-HasLarge (m ∷ ns) (octets ++ (wrapped n ∷ [])) h
]

-- `inet_addr` of four decimal numbers with dots between them. The code keeps each number modulo 2^32
-- only. If all four are then at most 255, the address has them as its bytes, the first one lowest;
-- otherwise the result is INADDR_NONE.
pub inet_addr-dotted :
    (a b c d : ℕ)
    → inet_addr (dotted a b c d) ≡ (
        if ltb 255 (wrapped a) || ltb 255 (wrapped b) || ltb 255 (wrapped c) || ltb 255 (wrapped d)
        then inaddr_none
        else wrapped a + wrapped b * 2 ^ 8 + wrapped c * 2 ^ 16 + wrapped d * 2 ^ 24)
unfolding inet_addr accepted
inet_addr-dotted a b c d =
    let large =
      ltb 255 (wrapped a) || ltb 255 (wrapped b) || ltb 255 (wrapped c) || ltb 255 (wrapped d) in
    elim (Bool-cases large) [
      | inl e ↦
          let h : HasLarge (a ∷ b ∷ c ∷ d ∷ []) = ground arith in
          rw e (ap accepted (read_octets-HasLarge (a ∷ b ∷ c ∷ d ∷ []) [] h))
      | inr e ↦
          rw e (accepted_dotted a b c d (ground arith) (ground arith) (ground arith) (ground arith))
    ]
