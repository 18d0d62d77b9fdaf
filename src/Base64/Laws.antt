-- ===== src/Base64/Laws.antt =====
-- base64 can be read back, and is free of quotes; hexadecimal text is free of separators.
use kube_secret_gateway.Base.{
  ℕ, ◌+◌, ◌*◌, ◌/◌, ◌%◌, ◌<◌, Text, [], ◌∷◌, ◌++◌, some, nat_eq, ◌≡◌, ◌≢◌, refl, arith, All,
}
use kube_secret_gateway.Base64.{symbol, symbol_value, encode}

pub symbol_value-symbol : (n : ℕ) → n < 64 → symbol_value (symbol n) ≡ some n
unfolding symbol symbol_value
symbol_value-symbol n h = ground arith

symbol_inj : (m n : ℕ) → m < 64 → n < 64 → symbol m ≡ symbol n → m ≡ n
unfolding symbol
symbol_inj m n hm hn e = ground arith

symbol-ne-pad : (n : ℕ) → n < 64 → symbol n ≢ b'='
unfolding symbol
symbol-ne-pad n h = ground arith

-- Every number of the text is a byte.
abbrev pub IsBytes : Text → Type 0
IsBytes = All (λ n. n < 256)

-- Equal encodings come from equal bytes.
pub encode_inj : (s t : Text) → IsBytes s → IsBytes t → encode s ≡ encode t → s ≡ t
unfolding encode
encode_inj [] [] hs ht e = refl
encode_inj [] (a ∷ []) hs ht e = cc
encode_inj [] (a ∷ b ∷ []) hs ht e = cc
encode_inj [] (a ∷ b ∷ c ∷ t) hs ht e = cc
encode_inj (a ∷ []) [] hs ht e = cc
encode_inj (a ∷ b ∷ []) [] hs ht e = cc
encode_inj (a ∷ b ∷ c ∷ s) [] hs ht e = cc
encode_inj (a ∷ []) (a' ∷ []) (ha, _) (ha', _) e =
    ground (arith, symbol_inj (a / 4) (a' / 4), symbol_inj (a % 4 * 16) (a' % 4 * 16))
encode_inj (a ∷ []) (a' ∷ b' ∷ []) hs (ha, (hb, _)) e = ground (arith, symbol-ne-pad (b' % 16 * 4))
encode_inj (a ∷ []) (a' ∷ b' ∷ c' ∷ t) hs (ha, (hb, (hc, _))) e =
    ground (arith, symbol-ne-pad (b' % 16 * 4 + c' / 64))
encode_inj (a ∷ b ∷ []) (a' ∷ []) (ha, (hb, _)) ht e = ground (arith, symbol-ne-pad (b % 16 * 4))
encode_inj (a ∷ b ∷ []) (a' ∷ b' ∷ []) (ha, (hb, _)) (ha', (hb', _)) e = ground (
  arith,
  symbol_inj (a / 4) (a' / 4),
  symbol_inj (a % 4 * 16 + b / 16) (a' % 4 * 16 + b' / 16),
  symbol_inj (b % 16 * 4) (b' % 16 * 4),
)
encode_inj (a ∷ b ∷ []) (a' ∷ b' ∷ c' ∷ t) hs (ha, (hb, (hc, _))) e =
    ground (arith, symbol-ne-pad (c' % 64))
encode_inj (a ∷ b ∷ c ∷ s) (a' ∷ []) (ha, (hb, (hc, _))) ht e =
    ground (arith, symbol-ne-pad (b % 16 * 4 + c / 64))
encode_inj (a ∷ b ∷ c ∷ s) (a' ∷ b' ∷ []) (ha, (hb, (hc, _))) ht e =
    ground (arith, symbol-ne-pad (c % 64))
encode_inj (a ∷ b ∷ c ∷ s) (a' ∷ b' ∷ c' ∷ t) (ha, (hb, (hc, hs))) (ha', (hb', (hc', ht))) e =
    ground (
      arith,
      symbol_inj (a / 4) (a' / 4),
      symbol_inj (a % 4 * 16 + b / 16) (a' % 4 * 16 + b' / 16),
      symbol_inj (b % 16 * 4 + c / 64) (b' % 16 * 4 + c' / 64),
      symbol_inj (c % 64) (c' % 64),
      encode_inj s t hs ht,
    )

-- No number of the text is `c`.
abbrev pub Lacks : ℕ → Text → Type 0
Lacks c = All (λ n. n ≢ c)

-- A separator cuts a text in one way only.
pub cut_unique :
    (c : ℕ) (x y r s : Text)
    → Lacks c x
    → Lacks c y
    → x ++ (c ∷ r) ≡ y ++ (c ∷ s)
    → (x ≡ y) × (r ≡ s)
cut_unique c [] [] r s hx hy e = ground arith
cut_unique c [] (b ∷ y) r s hx hy e = ground arith
cut_unique c (a ∷ x) [] r s hx hy e = ground arith
cut_unique c (a ∷ x) (b ∷ y) r s hx hy e = ground (arith, cut_unique c x y r s hx.1 hy.1)

symbol-ne-quote : (n : ℕ) → n < 64 → symbol n ≢ b'"'
unfolding symbol
symbol-ne-quote n h = ground arith

pub encode-Lacks_quote : (s : Text) → IsBytes s → Lacks b'"' (encode s)
unfolding encode
encode-Lacks_quote [] h = tt
encode-Lacks_quote (a ∷ []) h = (
  symbol-ne-quote (a / 4) (omega arith),
  (symbol-ne-quote (a % 4 * 16) (omega arith), (omega arith, (omega arith, tt))),
)
encode-Lacks_quote (a ∷ b ∷ []) h = (
  symbol-ne-quote (a / 4) (omega arith),
  (
    symbol-ne-quote (a % 4 * 16 + b / 16) (omega arith),
    (symbol-ne-quote (b % 16 * 4) (omega arith), (omega arith, tt)),
  ),
)
encode-Lacks_quote (a ∷ b ∷ c ∷ s) h = (
  symbol-ne-quote (a / 4) (omega arith),
  (
    symbol-ne-quote (a % 4 * 16 + b / 16) (omega arith),
    (
      symbol-ne-quote (b % 16 * 4 + c / 64) (omega arith),
      (symbol-ne-quote (c % 64) (omega arith), encode-Lacks_quote s h.1.1.1),
    ),
  ),
)
