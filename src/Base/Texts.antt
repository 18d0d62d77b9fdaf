-- ===== src/Base/Texts.antt =====
-- Go strings and byte slices as lists of bytes, and what the code uses of package strings.
use Prim.Native.Nat.{ℕ, zero, suc, ◌+◌, ◌-◌, ◌%◌, ◌/◌, compare, Ordering}
use Prim.Native.Char.{code}
use Prim.Native.String.{String}
use mathlib.Core.Path.{◌≡◌, refl}
use mathlib.Core.Logic.{◌↔◌}
use mathlib.Core.Bool.{Bool, true, false, ◌&&◌, ◌||◌, not}
use mathlib.Core.Option.{Option, none, some}
use mathlib.Core.List.{List, [], ◌∷◌, ◌++◌, reverse, reverse-cons}
use native.Mathlib.Omega.{arith}
use kube_secret_gateway.Base.Tests.{Eq, ◌==◌, nat_beq, nat_eq, if◌then◌else◌, leb}
use kube_secret_gateway.Base.Lists.{null}

abbrev pub Text : Type 0
Text = List ℕ

-- The bytes of an ASCII literal. `String` has its own `[]` and `∷`.
unfoldable pub ascii : String → Text
ascii String.[] = []
ascii (String.◌∷◌ c s) = code c ∷ ascii s

unfoldable pub text_beq : Text → Text → Bool
text_beq [] [] = true
text_beq [] (b ∷ bs) = false
text_beq (a ∷ as_) [] = false
text_beq (a ∷ as_) (b ∷ bs) = nat_beq a b && text_beq as_ bs

pub text_beq_iff : (s t : Text) → (text_beq s t ≡ true) ↔ (s ≡ t)
unfolding text_beq
text_beq_iff [] [] = ground arith
text_beq_iff [] (b ∷ bs) = ground arith
text_beq_iff (a ∷ s) [] = ground arith
text_beq_iff (a ∷ s) (b ∷ t) = ground (arith, text_beq_iff s t)

instance abbrev pub text_eq : Eq Text
text_eq = record { same = text_beq; same_iff = text_beq_iff }

-- strings.CutPrefix: the rest behind the prefix.
unfoldable pub cut_prefix : Text → Text → Option Text
cut_prefix s [] = some s
cut_prefix [] (b ∷ bs) = none
cut_prefix (a ∷ s) (b ∷ bs) = if a == b then cut_prefix s bs else none

pub cut_prefix_iff :
    (s prefix rest : Text) → (cut_prefix s prefix ≡ some rest) ↔ (s ≡ prefix ++ rest)
unfolding cut_prefix
cut_prefix_iff s [] rest = ground arith
cut_prefix_iff [] (b ∷ bs) rest = ground arith
cut_prefix_iff (a ∷ s) (b ∷ bs) rest = ground (arith, cut_prefix_iff s bs rest)

-- unicode.IsSpace on the characters of one byte: \t \n \v \f \r and the blank.
unfoldable pub is_space : ℕ → Bool
is_space c = c == 32 || (leb 9 c && leb c 13)

-- unicode.IsSpace on the characters of two bytes, U+0085 and U+00A0.
unfoldable pub is_space_of_two : ℕ → ℕ → Bool
is_space_of_two a b = a == 194 && (b == 133 || b == 160)

-- unicode.IsSpace on the characters of three bytes: U+1680, U+2000 to U+200A, U+2028, U+2029, U+202F,
-- U+205F and U+3000.
unfoldable pub is_space_of_three : ℕ → ℕ → ℕ → Bool
is_space_of_three a b c =
    (a == 225 && (b == 154 && c == 128))
    || ((a == 226
          && ((b == 128 && ((leb 128 c && leb c 138) || (c == 168 || (c == 169 || c == 175))))
              || (b == 129 && c == 159)))
        || (a == 227 && (b == 128 && c == 128)))

-- The bytes of the first character, if that is white space, and 0 otherwise.
unfoldable pub first_width : Text → ℕ
unfolding is_space is_space_of_two is_space_of_three
first_width [] = 0
first_width (a ∷ []) = if is_space a then 1 else 0
first_width (a ∷ b ∷ []) = if is_space a then 1 else if is_space_of_two a b then 2 else 0
first_width (a ∷ b ∷ c ∷ s) =
    if is_space a
    then 1
    else if is_space_of_two a b
    then 2
    else if is_space_of_three a b c
    then 3
    else 0

-- The same for the last character of a text that stands here from its end.
unfoldable pub last_width : Text → ℕ
unfolding is_space is_space_of_two is_space_of_three
last_width [] = 0
last_width (a ∷ []) = if is_space a then 1 else 0
last_width (a ∷ b ∷ []) = if is_space a then 1 else if is_space_of_two b a then 2 else 0
last_width (a ∷ b ∷ c ∷ s) =
    if is_space a
    then 1
    else if is_space_of_two b a
    then 2
    else if is_space_of_three c b a
    then 3
    else 0

-- The text without the white space in front; the first `skipped` bytes are some.
unfoldable pub trim_front : (Text → ℕ) → ℕ → Text → Text
trim_front width skipped [] = []
trim_front width zero (c ∷ s) =
    let w = width (c ∷ s) in let rest = trim_front width (w - 1) s in if w == 0 then c ∷ s else rest
trim_front width (suc skipped) (c ∷ s) = trim_front width skipped s

-- strings.TrimSpace, on the bytes of UTF-8.
unfoldable pub trim_space : Text → Text
unfolding trim_front first_width last_width
trim_space s = reverse (trim_front last_width 0 (reverse (trim_front first_width 0 s)))

-- The order of strings in Go: by bytes.
unfoldable pub text_compare : Text → Text → Ordering
text_compare [] [] = Ordering.eq
text_compare [] (b ∷ bs) = Ordering.lt
text_compare (a ∷ s) [] = Ordering.gt
text_compare (a ∷ s) (b ∷ t) = elim (compare a b) [
  | Ordering.lt ↦ Ordering.lt
  | Ordering.gt ↦ Ordering.gt
  | Ordering.eq ↦ text_compare s t
]

-- The order of a pair turned round.
abbrev pub opposite : Ordering → Ordering
opposite Ordering.lt = Ordering.gt
opposite Ordering.eq = Ordering.eq
opposite Ordering.gt = Ordering.lt

pub text_compare_swap : (s t : Text) → text_compare t s ≡ opposite (text_compare s t)
unfolding text_compare
text_compare_swap [] [] = ground arith
text_compare_swap [] (b ∷ t) = ground arith
text_compare_swap (a ∷ s) [] = ground arith
text_compare_swap (a ∷ s) (b ∷ t) = ground (arith, text_compare_swap s t)

pub text_compare-eq_iff : (s t : Text) → (text_compare s t ≡ Ordering.eq) ↔ (s ≡ t)
unfolding text_compare
text_compare-eq_iff [] [] = ground arith
text_compare-eq_iff [] (b ∷ t) = ground arith
text_compare-eq_iff (a ∷ s) [] = ground arith
text_compare-eq_iff (a ∷ s) (b ∷ t) = ground (arith, text_compare-eq_iff s t)

-- Whether a comma stands in the text, and whether none stands in its first bytes.
has_comma : Text → Bool
has_comma [] = false
has_comma (c ∷ s) = c == b',' || has_comma s

is_clear : ℕ → Text → Bool
is_clear zero s = true
is_clear (suc n) [] = true
is_clear (suc n) (c ∷ s) = not (c == b',') && is_clear n s

first_width-is_clear : (s : Text) → is_clear (first_width s) s ≡ true
unfolding first_width is_clear is_space is_space_of_two is_space_of_three
first_width-is_clear [] = refl
first_width-is_clear (a ∷ []) = ground arith
first_width-is_clear (a ∷ b ∷ []) = ground arith
first_width-is_clear (a ∷ b ∷ c ∷ s) = ground arith

last_width-is_clear : (s : Text) → is_clear (last_width s) s ≡ true
unfolding last_width is_clear is_space is_space_of_two is_space_of_three
last_width-is_clear [] = refl
last_width-is_clear (a ∷ []) = ground arith
last_width-is_clear (a ∷ b ∷ []) = ground arith
last_width-is_clear (a ∷ b ∷ c ∷ s) = ground arith

trim_front-has_comma :
    (width : Text → ℕ)
    → ((s : Text) → is_clear (width s) s ≡ true)
    → (n : ℕ) (s : Text) → is_clear n s ≡ true
    → has_comma s ≡ true
    → has_comma (trim_front width n s) ≡ true
unfolding trim_front is_clear has_comma
trim_front-has_comma width clear n [] h e = absurd (cc e)
trim_front-has_comma width clear (suc n) (c ∷ s) h e =
    trim_front-has_comma width clear n s (ground arith) (ground arith)
trim_front-has_comma width clear zero (c ∷ s) h e =
    from_width (width (c ∷ s)) (clear (c ∷ s))
      (trim_front-has_comma width clear (width (c ∷ s) - 1) s)
  where
    from_width :
        (w : ℕ)
        → is_clear w (c ∷ s) ≡ true
        → (is_clear (w - 1) s ≡ true
            → has_comma s ≡ true
            → has_comma (trim_front width (w - 1) s) ≡ true)
        → has_comma (if w == 0 then c ∷ s else trim_front width (w - 1) s) ≡ true
    from_width zero clean rest = e
    from_width (suc w) clean rest =
        let tail = rest (ground arith) (ground arith) in ground (arith, tail)

has_comma-append : (s t : Text) → has_comma (s ++ t) ≡ (has_comma s || has_comma t)
unfolding has_comma
has_comma-append [] t = refl
has_comma-append (c ∷ s) t = ground (arith, has_comma-append s t)

has_comma-reverse : (s : Text) → has_comma (reverse s) ≡ has_comma s
unfolding has_comma
has_comma-reverse [] = refl
has_comma-reverse (c ∷ s) =
    rw (reverse-cons, has_comma-append) (ground (arith, has_comma-reverse s))

has_comma-null : (s : Text) → has_comma s ≡ true → null s ≡ false
unfolding has_comma
has_comma-null [] e = cc e
has_comma-null (c ∷ s) e = refl

-- A text with a comma is not trimmed to nothing.
pub null-trim_space : (s t : Text) → null (trim_space (s ++ (b',' ∷ t))) ≡ false
unfolding trim_space has_comma is_clear
null-trim_space s t =
    let line = s ++ (b',' ∷ t) in
    let front = trim_front first_width 0 line in
    let comma : has_comma line ≡ true = ground (arith, has_comma-append s (b',' ∷ t)) in
    let kept : has_comma front ≡ true =
      trim_front-has_comma first_width first_width-is_clear 0 line refl comma in
    let back : has_comma (reverse front) ≡ true = ground (arith, has_comma-reverse front) in
    let trimmed = trim_front last_width 0 (reverse front) in
    let left : has_comma trimmed ≡ true =
      trim_front-has_comma last_width last_width-is_clear 0 (reverse front) refl back in
    has_comma-null (reverse trimmed) (ground (arith, has_comma-reverse trimmed))

-- strconv.Itoa on a number that is not negative; a number has fewer digits than itself plus one.
digits_onto : ℕ → ℕ → Text → Text
digits_onto zero n acc = acc
digits_onto (suc fuel) n acc =
    let digit = n % 10 + b'0' in
    let rest = digits_onto fuel (n / 10) (digit ∷ acc) in if leb n 9 then digit ∷ acc else rest

unfoldable pub itoa : ℕ → Text
unfolding digits_onto
itoa n = digits_onto (suc n) n []
