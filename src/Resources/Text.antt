-- ===== src/Resources/Text.antt =====
-- Python's text: codes of characters, numbers in a base, and `str.join`.
use Prim.Native.Char.{code}
use Prim.Native.String.{String}
use ska_pst_lmc.Prelude.{
  ℕ, zero, suc, ◌+◌, ◌-◌, ◌*◌, ◌/◌, ◌%◌, ◌<◌, ◌≤◌, ◌≡◌, refl, ap, ◌∙◌, List, [], ◌∷◌, ◌++◌, length,
  ltb, if◌then◌else◌, arith, Bool-cases, inl, inr,
}

abbrev pub Text : Type 0
Text = List ℕ

-- The code points of a literal.
abbrev pub codes : String → Text
codes String.[] = []
codes (String.◌∷◌ c s) = code c ∷ codes s

-- `0123456789abcdef[d]`
unfoldable pub digit : ℕ → ℕ
digit d = if ltb d 10 then b'0' + d else b'a' + (d - 10)

-- The digits of a number in a base of at least two; `fuel` bounds their number.
unfoldable pub digits : ℕ → ℕ → ℕ → Text
digits base zero n = []
digits base (suc fuel) n =
    let rest = digits base fuel (n / base) ++ digit (n % base) ∷ [] in
    if ltb n base then digit n ∷ [] else rest

-- `str(n)`
unfoldable pub decimal : ℕ → Text
decimal n = digits 10 (suc n) n

-- `"{0:02x}".format(n)`
unfoldable pub hex : ℕ → Text
hex n = if ltb n 16 then b'0' ∷ digits 16 (suc n) n else digits 16 (suc n) n

-- `separator.join(texts)`
unfoldable pub join : Text → List Text → Text
join separator [] = []
join separator (text ∷ []) = text
join separator (text ∷ next ∷ texts) = text ++ separator ++ join separator (next ∷ texts)

-- Reading a digit, and a number in base 16.
unfoldable pub digit_value : ℕ → ℕ
digit_value c = if ltb c b'a' then c - b'0' else c - b'a' + 10

abbrev pub read_hex : ℕ → Text → ℕ
read_hex acc [] = acc
read_hex acc (c ∷ cs) = read_hex (acc * 16 + digit_value c) cs

pub digit_value-digit : (d : ℕ) → d < 16 → digit_value (digit d) ≡ d
unfolding digit digit_value
digit_value-digit d h = ground arith

pub read_hex-append : (acc : ℕ) (s t : Text) → read_hex acc (s ++ t) ≡ read_hex (read_hex acc s) t
read_hex-append acc [] t = refl
read_hex-append acc (c ∷ s) t = read_hex-append (acc * 16 + digit_value c) s t

pub read_hex-digits : (fuel n : ℕ) → n < fuel → read_hex 0 (digits 16 fuel n) ≡ n
unfolding digits
read_hex-digits zero n h = elim h [ ]
read_hex-digits (suc fuel) n h = elim (Bool-cases (ltb n 16)) [
  | inl last ↦ rw last (omega (arith, digit_value-digit n (ground arith)))
  | inr more ↦ rw more (
      read_hex-append 0 (digits 16 fuel (n / 16)) (digit (n % 16) ∷ [])
      ∙ omega (
        arith,
        read_hex-digits fuel (n / 16) (ground arith),
        digit_value-digit (n % 16) (omega arith),
      ))
]

zero_digit : digit_value b'0' ≡ 0
unfolding digit_value
zero_digit = refl

pub read_hex-hex : (n : ℕ) → read_hex 0 (hex n) ≡ n
unfolding hex
read_hex-hex n = elim (Bool-cases (ltb n 16)) [
  | inl small ↦ rw small (
      ap (λ d. read_hex (0 * 16 + d) (digits 16 (suc n) n)) zero_digit
      ∙ read_hex-digits (suc n) n (omega arith))
  | inr large ↦ rw large (read_hex-digits (suc n) n (omega arith))
]

pub digits-single : (base fuel n : ℕ) → n < base → digits base (suc fuel) n ≡ digit n ∷ []
unfolding digits
digits-single base fuel n h = ground arith

pub digits-pair :
    (fuel n : ℕ)
    → 16 ≤ n
    → n < 256
    → digits 16 (suc (suc fuel)) n ≡ digit (n / 16) ∷ digit (n % 16) ∷ []
unfolding digits
digits-pair fuel n h k = ground (arith, digits-single 16 fuel (n / 16))

-- The two characters of a number below 256.
pub length-hex : (n : ℕ) → n < 256 → length (hex n) ≡ 2
unfolding hex
length-hex n h = elim (Bool-cases (ltb n 16)) [
  | inl small ↦ rw (small, digits-single 16 n n (ground arith)) refl
  | inr large ↦
      let more : suc n ≡ suc (suc (n - 1)) = ground arith in
      rw large (
        ap (λ fuel. length (digits 16 fuel n)) more
        ∙ ap length (digits-pair (n - 1) n (ground arith) h))
]
