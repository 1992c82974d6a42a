-- ===== src/Merkle/Printed.antt =====
-- A hash is read back from its hexadecimal text, and a list of such texts from its comma list.
use Prim.Native.Char.{Char, code}
use Prim.Native.String.{len, ◌++◌}
use text.Mathlib.TextLemmas.{cons-append, nil-append}
use text.Mathlib.TextPositions.{len-append}
use magi_tokenomics.Common.{
  beq_ne, ℕ, zero, suc, ◌+◌, ◌*◌, ◌/◌, ◌%◌, ◌<◌, ◌≡◌, refl, sym, ap, arith, subst, true, false,
  String, List, [], ◌∷◌, some, nat_beq, ◌==◌, string_eq, length, All, Bool-cases, inl, inr,
}
use magi_tokenomics.Text.Fields.{comma_fields}
use magi_tokenomics.Merkle.Hex.{hex_nibble, hex_pairs, hex_to_bytes, hex_digit, bytes_to_hex}

-- A property of each number below a bound, and of one of them.
abbrev Below : ℕ → (ℕ → Type 0) → Type 0
Below zero P = Unit
Below (suc n) P = P n × Below n P

Below-at : (m n : ℕ) (P : ℕ → Type 0) → Below m P → n < m → P n
Below-at zero n P b l = absurd (omega (arith, l))
Below-at (suc m) n P (p, b) l = elim (Bool-cases (nat_beq n m)) [
  | inl h ↦ (let e : n ≡ m = ground (arith, h) in subst P (sym e) p)
  | inr h ↦ Below-at m n P b (ground (arith, h, l))
]

-- A digit is one character, not a comma, that is read as its number.
record Digit (n : ℕ) : Type 0 where
  char : Char
  shown : hex_digit n ≡ String.◌∷◌ char ""
  read : hex_nibble (code char) ≡ some n
  plain : nat_beq (code char) 44 ≡ false
  one : len (hex_digit n) ≡ 1

digits : Below 16 Digit
unfolding hex_digit hex_nibble
digits = (
  record { char = "f"; shown = refl; read = refl; plain = refl; one = refl },
  (
    record { char = "e"; shown = refl; read = refl; plain = refl; one = refl },
    (
      record { char = "d"; shown = refl; read = refl; plain = refl; one = refl },
      (
        record { char = "c"; shown = refl; read = refl; plain = refl; one = refl },
        (
          record { char = "b"; shown = refl; read = refl; plain = refl; one = refl },
          (
            record { char = "a"; shown = refl; read = refl; plain = refl; one = refl },
            (
              record { char = "9"; shown = refl; read = refl; plain = refl; one = refl },
              (
                record { char = "8"; shown = refl; read = refl; plain = refl; one = refl },
                (
                  record { char = "7"; shown = refl; read = refl; plain = refl; one = refl },
                  (
                    record { char = "6"; shown = refl; read = refl; plain = refl; one = refl },
                    (
                      record { char = "5"; shown = refl; read = refl; plain = refl; one = refl },
                      (
                        record { char = "4"; shown = refl; read = refl; plain = refl; one = refl },
                        (
                          record {
                            char = "3";
                            shown = refl;
                            read = refl;
                            plain = refl;
                            one = refl;
                          },
                          (
                            record {
                              char = "2";
                              shown = refl;
                              read = refl;
                              plain = refl;
                              one = refl;
                            },
                            (
                              record {
                                char = "1";
                                shown = refl;
                                read = refl;
                                plain = refl;
                                one = refl;
                              },
                              (
                                record {
                                  char = "0";
                                  shown = refl;
                                  read = refl;
                                  plain = refl;
                                  one = refl;
                                },
                                tt,
                              ),
                            ),
                          ),
                        ),
                      ),
                    ),
                  ),
                ),
              ),
            ),
          ),
        ),
      ),
    ),
  ),
)

Digit-at : (n : ℕ) → n < 16 → Digit n
Digit-at n l = Below-at 16 n Digit digits l

abbrev IsByte : ℕ → Type 0
IsByte b = b < 256

abbrev pub AllBytes : List ℕ → Type 0
AllBytes bytes = All IsByte bytes

-- 32 bytes.
abbrev pub IsHash : List ℕ → Type 0
IsHash h = (length h ≡ 32) × AllBytes h

-- The text of a byte and what follows it.
two_digits :
    (b : ℕ) (s : String) (hi : Digit (b / 16)) (lo : Digit (b % 16))
    → hex_digit (b / 16) ++ (hex_digit (b % 16) ++ s) ≡ String.◌∷◌ hi.char (String.◌∷◌ lo.char s)
two_digits b s hi lo = rw (hi.shown, lo.shown) (simp (cons-append, nil-append))

rejoined : (b : ℕ) → b / 16 * 16 + b % 16 ≡ b
rejoined b = omega arith

hex_pairs-printed : (h : List ℕ) → AllBytes h → hex_pairs (bytes_to_hex h) ≡ some h
unfolding hex_pairs bytes_to_hex
hex_pairs-printed [] z = refl
hex_pairs-printed (b ∷ bs) (l, z) =
    let hi = Digit-at (b / 16) (omega (arith, l)) in
    let lo = Digit-at (b % 16) (omega arith) in
    rw (two_digits b (bytes_to_hex bs) hi lo, hi.read, lo.read, hex_pairs-printed bs z, rejoined b)
      refl

len-printed : (h : List ℕ) → AllBytes h → len (bytes_to_hex h) ≡ length h * 2
unfolding bytes_to_hex
len-printed [] z = refl
len-printed (b ∷ bs) (l, z) =
    let hi = Digit-at (b / 16) (omega (arith, l)) in
    let lo = Digit-at (b % 16) (omega arith) in
    rw (len-append, len-append, hi.one, lo.one, len-printed bs z) (omega arith)

pub hex_to_bytes-printed : (h : List ℕ) → IsHash h → hex_to_bytes (bytes_to_hex h) ≡ some h
unfolding hex_to_bytes
hex_to_bytes-printed h (n, z) =
    let is_64 : nat_beq (len (bytes_to_hex h)) 64 ≡ true = rw (len-printed h z, n) refl in
    rw is_64 (hex_pairs-printed h z)

-- Text without a comma in front of a comma list.
pub record IsPlain (p : String) : Type 0 where
  pub alone : (t : String) → comma_fields (p ++ t) ≡ (p ++ (comma_fields t).0, (comma_fields t).1)

pub bytes_to_hex-IsPlain : (h : List ℕ) → AllBytes h → IsPlain (bytes_to_hex h)
unfolding bytes_to_hex comma_fields
bytes_to_hex-IsPlain [] z = record { alone = λ t. simp nil-append }
bytes_to_hex-IsPlain (b ∷ bs) (l, z) =
    let hi = Digit-at (b / 16) (omega (arith, l)) in
    let lo = Digit-at (b % 16) (omega arith) in
    record {
      alone = λ t.
          rw (two_digits b (bytes_to_hex bs) hi lo)
            (simp (cons-append, hi.plain, lo.plain, (bytes_to_hex-IsPlain bs z).alone t));
    }

-- A printed hash is not empty.
pub printed-nonempty : (h : List ℕ) → IsHash h → (bytes_to_hex h == "") ≡ false
printed-nonempty h (n, z) = beq_ne (bytes_to_hex h) "" (λ e. nonzero (ap len e))
  where
    nonzero : ¬ (len (bytes_to_hex h) ≡ 0)
    nonzero e = omega (arith, e, len-printed h z, n)
