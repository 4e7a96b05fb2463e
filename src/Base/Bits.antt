-- ===== src/Base/Bits.antt =====
-- Python's `>>`, `<<`, `&` and `|` on non-negative integers: masks and fields as arithmetic.
use Prim.Native.Nat.{
  ℕ, zero, suc, ◌+◌, ◌-◌, ◌*◌, ◌/◌, ◌%◌, ◌^◌, ◌≤◌, ◌<◌, min, max, bit_and, bit_or, digits, bitwise,
  bit_and-bitwise, bit_or-bitwise,
}
use mathlib.Core.Path.{◌≡◌, refl, ap}
use native.Mathlib.Nat.{zero-add, suc-add, pow-suc}
use native.Mathlib.Omega.{arith}

-- `x <<< k` and `x >>> k`.
infixl 75 ◌<<<◌ ◌>>>◌
abbrev pub ◌<<<◌ : ℕ → ℕ → ℕ
x <<< k = x * 2 ^ k

abbrev pub ◌>>>◌ : ℕ → ℕ → ℕ
x >>> k = x / 2 ^ k

-- `x & ~m`, for a non-negative `x`: the bits of `m` are taken away.
unfoldable pub bit_clear : ℕ → ℕ → ℕ
bit_clear x m = x - bit_and x m

-- The digit recursion of the native operations does not depend on surplus fuel.
module _ (right : ℕ → ℕ) (op : ℕ → ℕ → ℕ) where
  digits_surplus : (f g x y : ℕ) → x ≤ f → x ≤ g → digits right op f x y ≡ digits right op g x y
  digits_surplus zero zero x y p q = refl
  digits_surplus zero (suc g) zero y p q = refl
  digits_surplus (suc f) zero zero y p q = refl
  digits_surplus (suc f) (suc g) zero y p q = refl
  digits_surplus zero g (suc x) y p q = elim p [ ]
  digits_surplus f zero (suc x) y p q = elim q [ ]
  digits_surplus (suc f) (suc g) (suc x) y p q =
      let e : digits right op f (suc x / 2) (y / 2) ≡ digits right op g (suc x / 2) (y / 2) =
        digits_surplus f g (suc x / 2) (y / 2) (omega arith) (omega arith) in
      rw e

  pub bitwise-suc :
      (x y : ℕ)
      → bitwise right op (suc x) y
        ≡ bitwise right op (suc x / 2) (y / 2) * 2 + op (suc x % 2) (y % 2)
  bitwise-suc x y =
      let e : digits right op x (suc x / 2) (y / 2)
          ≡ digits right op (suc x / 2) (suc x / 2) (y / 2) =
        digits_surplus x (suc x / 2) (suc x / 2) (y / 2) (omega arith) (omega arith) in
      omega (arith, e)

bit_and-halve : (x y : ℕ) → bit_and x y ≡ bit_and (x / 2) (y / 2) * 2 + min (x % 2) (y % 2)
bit_and-halve zero y = simp bit_and-bitwise (omega arith)
bit_and-halve (suc x) y = simp bit_and-bitwise (bitwise-suc (λ b. 0) min x y)

bit_or-halve : (x y : ℕ) → bit_or x y ≡ bit_or (x / 2) (y / 2) * 2 + max (x % 2) (y % 2)
bit_or-halve zero y = simp bit_or-bitwise (omega arith)
bit_or-halve (suc x) y = simp bit_or-bitwise (bitwise-suc (λ b. b) max x y)

-- Both in one induction, on a bound of the left argument.
bit_and-nothing : (f x : ℕ) → x ≤ f → bit_and x 0 ≡ 0
bit_and-nothing f zero h = refl
bit_and-nothing zero (suc x) h = elim h [ ]
bit_and-nothing (suc f) (suc x) h =
    omega (arith, bit_and-halve (suc x) 0, bit_and-nothing f (suc x / 2) (omega arith))

bit_or-nothing : (f x : ℕ) → x ≤ f → bit_or x 0 ≡ x
bit_or-nothing f zero h = refl
bit_or-nothing zero (suc x) h = elim h [ ]
bit_or-nothing (suc f) (suc x) h =
    omega (arith, bit_or-halve (suc x) 0, bit_or-nothing f (suc x / 2) (omega arith))

pub bit_and-zero : (x : ℕ) → bit_and x 0 ≡ 0
bit_and-zero x = bit_and-nothing x x (omega arith)

pub bit_or-zero : (x : ℕ) → bit_or x 0 ≡ x
bit_or-zero x = bit_or-nothing x x (omega arith)

double : (k q : ℕ) → q * 2 ^ suc k ≡ q * 2 ^ k + q * 2 ^ k
double k q = omega (arith, ap (λ (t : ℕ). q * t) (pow-suc 2 k))

pub two_pow-pos : (k : ℕ) → 0 < 2 ^ k
two_pow-pos zero = omega arith
two_pow-pos (suc k) = omega (arith, pow-suc 2 k, two_pow-pos k)

pub two_pow-add : (a b : ℕ) → 2 ^ (a + b) ≡ 2 ^ a * 2 ^ b
two_pow-add zero b = rw zero-add (omega arith)
two_pow-add (suc a) b = rw (suc-add, pow-suc 2 (a + b), pow-suc 2 a, two_pow-add a b) (omega arith)

-- `(q <<< k) | r` is a sum when `r` fits in `k` bits.
pub bit_or-field : (k q r : ℕ) → r < 2 ^ k → bit_or (q <<< k) r ≡ q * 2 ^ k + r
bit_or-field zero q r h = ground (arith, bit_or-nothing (q * 1) (q * 1))
bit_or-field (suc k) q r h = ground (
  arith,
  bit_or-halve (q * 2 ^ suc k) r,
  double k q,
  pow-suc 2 k,
  bit_or-field k q (r / 2) (omega (arith, pow-suc 2 k)),
)

bit_and-field : (k q r : ℕ) → r < 2 ^ k → bit_and (q * 2 ^ k + r) (2 ^ k - 1) ≡ r
bit_and-field zero q r h = ground (arith, bit_and-nothing (q * 1 + r) (q * 1 + r))
bit_and-field (suc k) q r h = ground (
  arith,
  bit_and-halve (q * 2 ^ suc k + r) (2 ^ suc k - 1),
  double k q,
  pow-suc 2 k,
  two_pow-pos k,
  bit_and-field k q (r / 2) (omega (arith, pow-suc 2 k)),
)

-- A mask of the low `k` bits is the remainder by `2 ^ k`.
pub bit_and-mask : (k x : ℕ) → bit_and x (2 ^ k - 1) ≡ x % 2 ^ k
bit_and-mask k x = ground (arith, two_pow-pos k, bit_and-field k (x / 2 ^ k) (x % 2 ^ k))

join-halves :
    (k x a : ℕ) → ((x * 2 ^ suc k + a) / 2 ≡ x * 2 ^ k + a / 2) × ((x * 2 ^ suc k + a) % 2 ≡ a % 2)
join-halves k x a = omega (arith, double k x)

below-half : (k a : ℕ) → a < 2 ^ suc k → a / 2 < 2 ^ k
below-half k a h = omega (arith, h, pow-suc 2 k)

unit_part : (x a : ℕ) → a < 2 ^ 0 → x * 2 ^ 0 + a ≡ x
unit_part x a h = omega (arith, h)

no_bits : (a : ℕ) → a < 2 ^ 0 → a ≡ 0
no_bits a h = omega (arith, h)

-- Both words are split at bit `k`: the operation works on the two parts apart.
pub bit_and-join :
    (k x y a b : ℕ)
    → a < 2 ^ k
    → b < 2 ^ k
    → bit_and (x * 2 ^ k + a) (y * 2 ^ k + b) ≡ bit_and x y * 2 ^ k + bit_and a b
bit_and-join zero x y a b p q =
    rw (unit_part x a p, unit_part y b q, no_bits a p, no_bits b q) (omega arith)
bit_and-join (suc k) x y a b p q =
    let (xa, xb) = join-halves k x a in
    let (ya, yb) = join-halves k y b in
    rw
      (
        bit_and-halve (x * 2 ^ suc k + a) (y * 2 ^ suc k + b),
        xa,
        xb,
        ya,
        yb,
        bit_and-join k x y (a / 2) (b / 2) (below-half k a p) (below-half k b q),
      )
      (omega (arith, bit_and-halve a b, double k (bit_and x y)))

pub bit_or-join :
    (k x y a b : ℕ)
    → a < 2 ^ k
    → b < 2 ^ k
    → bit_or (x * 2 ^ k + a) (y * 2 ^ k + b) ≡ bit_or x y * 2 ^ k + bit_or a b
bit_or-join zero x y a b p q =
    rw (unit_part x a p, unit_part y b q, no_bits a p, no_bits b q) (omega arith)
bit_or-join (suc k) x y a b p q =
    let (xa, xb) = join-halves k x a in
    let (ya, yb) = join-halves k y b in
    rw
      (
        bit_or-halve (x * 2 ^ suc k + a) (y * 2 ^ suc k + b),
        xa,
        xb,
        ya,
        yb,
        bit_or-join k x y (a / 2) (b / 2) (below-half k a p) (below-half k b q),
      )
      (omega (arith, bit_or-halve a b, double k (bit_or x y)))

zero_bits : (b : ℕ) → bit_and 0 b ≡ 0
zero_bits b = simp bit_and-bitwise refl

pub bit_and-lt : (k a b : ℕ) → a < 2 ^ k → bit_and a b < 2 ^ k
bit_and-lt zero a b p = rw (no_bits a p, zero_bits b) (omega arith)
bit_and-lt (suc k) a b p =
    omega (arith, bit_and-halve a b, pow-suc 2 k, bit_and-lt k (a / 2) (b / 2) (below-half k a p))

pub bit_or-lt : (k a b : ℕ) → a < 2 ^ k → b < 2 ^ k → bit_or a b < 2 ^ k
bit_or-lt zero a b p q = rw (no_bits a p, no_bits b q) (omega arith)
bit_or-lt (suc k) a b p q = omega (
  arith,
  bit_or-halve a b,
  pow-suc 2 k,
  bit_or-lt k (a / 2) (b / 2) (below-half k a p) (below-half k b q),
)
