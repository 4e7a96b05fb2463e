-- ===== src/Base/Tabulate.antt =====
-- Lists of numbers known element by element.
use Prim.Native.Nat.{ℕ, zero, suc, ◌+◌, ◌<◌}
use mathlib.Core.Path.{◌≡◌, refl, ap, ◌∙◌, sym}
use mathlib.Core.List.{List, [], ◌∷◌, ◌++◌, map}
use native.Mathlib.Omega.{arith}
use native.Mathlib.Nat.{add-zero}
use apm_repo_sdk_python.Base.Lists.{length, get_or, take, All}

-- `[f(i) for i in range(start, start + n)]`.
abbrev pub tabulate : (ℕ → ℕ) → ℕ → ℕ → List ℕ
tabulate f start zero = []
tabulate f start (suc n) = f start ∷ tabulate f (suc start) n

pub length-tabulate : (f : ℕ → ℕ) (start n : ℕ) → length (tabulate f start n) ≡ n
length-tabulate f start zero = refl
length-tabulate f start (suc n) = ap suc (length-tabulate f (suc start) n)

pub get_or-tabulate :
    (f : ℕ → ℕ) (start n i : ℕ) → i < n → get_or (tabulate f start n) i 0 ≡ f (start + i)
get_or-tabulate f start zero i h = absurd (omega (arith, h))
get_or-tabulate f start (suc n) zero h = ap f (sym (add-zero start))
get_or-tabulate f start (suc n) (suc i) h =
    get_or-tabulate f (suc start) n i (omega (arith, h)) ∙ ap f (shift start i)
  where
    shift : (s j : ℕ) → suc s + j ≡ s + suc j
    shift s j = omega arith

pub All-tabulate :
    (P : ℕ → Type 0) (f : ℕ → ℕ) (start n : ℕ) → ((i : ℕ) → P (f i)) → All P (tabulate f start n)
All-tabulate P f start zero h = tt
All-tabulate P f start (suc n) h = (h start, All-tabulate P f (suc start) n h)

-- Two lists of the same length with the same elements.
pub pointwise :
    (xs ys : List ℕ)
    → length xs ≡ length ys
    → ((i : ℕ) → i < length ys → get_or xs i 0 ≡ get_or ys i 0)
    → xs ≡ ys
pointwise [] [] e h = refl
pointwise [] (y ∷ ys) e h = absurd (omega (arith, e))
pointwise (x ∷ xs) [] e h = absurd (omega (arith, e))
pointwise (x ∷ xs) (y ∷ ys) e h =
    ap (λ z. z ∷ xs) (h 0 (omega arith))
    ∙ ap (◌∷◌ y) (pointwise xs ys (omega (arith, e)) (λ i p. h (suc i) (omega (arith, p))))

pub pointwise-tabulate :
    (f : ℕ → ℕ) (n : ℕ) (xs : List ℕ)
    → length xs ≡ n
    → ((i : ℕ) → i < n → get_or xs i 0 ≡ f i)
    → xs ≡ tabulate f 0 n
pointwise-tabulate f n xs e h =
    pointwise xs (tabulate f 0 n) (e ∙ sym (length-tabulate f 0 n)) (λ i p.
      let q : i < n = omega (arith, p, length-tabulate f 0 n) in
      h i q ∙ sym (get_or-tabulate f 0 n i q ∙ ap f (plus i)))
  where
    plus : (i : ℕ) → 0 + i ≡ i
    plus i = omega arith

pub length-map : (f : ℕ → ℕ) (xs : List ℕ) → length (map f xs) ≡ length xs
length-map f [] = refl
length-map f (x ∷ xs) = ap suc (length-map f xs)

pub get_or-map :
    (f : ℕ → ℕ) (xs : List ℕ) (i : ℕ) → i < length xs → get_or (map f xs) i 0 ≡ f (get_or xs i 0)
get_or-map f [] i h = absurd (omega (arith, h))
get_or-map f (x ∷ xs) zero h = refl
get_or-map f (x ∷ xs) (suc i) h = get_or-map f xs i (omega (arith, h))

pub All-map :
    (P Q : ℕ → Type 0) (f : ℕ → ℕ) (xs : List ℕ)
    → ((x : ℕ) → P x → Q (f x))
    → All P xs
    → All Q (map f xs)
All-map P Q f [] h k = tt
All-map P Q f (x ∷ xs) h k = (h x k.0, All-map P Q f xs h k.1)

pub get_or-take : (n i : ℕ) (xs : List ℕ) → i < n → get_or (take n xs) i 0 ≡ get_or xs i 0
get_or-take zero i xs h = absurd (omega (arith, h))
get_or-take (suc n) i [] h = refl
get_or-take (suc n) zero (x ∷ xs) h = refl
get_or-take (suc n) (suc i) (x ∷ xs) h = get_or-take n i xs (omega (arith, h))

pub All-take : (P : ℕ → Type 0) (n : ℕ) (xs : List ℕ) → All P xs → All P (take n xs)
All-take P zero xs h = tt
All-take P (suc n) [] h = tt
All-take P (suc n) (x ∷ xs) h = (h.0, All-take P n xs h.1)

pub All-get_or : (P : ℕ → Type 0) (xs : List ℕ) (i : ℕ) → P 0 → All P xs → P (get_or xs i 0)
All-get_or P [] i z h = z
All-get_or P (x ∷ xs) zero z h = h.0
All-get_or P (x ∷ xs) (suc i) z h = All-get_or P xs i z h.1

pub get_or-append : (i : ℕ) (xs ys : List ℕ) → i < length xs → get_or (xs ++ ys) i 0 ≡ get_or xs i 0
get_or-append i [] ys h = absurd (omega (arith, h))
get_or-append zero (x ∷ xs) ys h = refl
get_or-append (suc i) (x ∷ xs) ys h = get_or-append i xs ys (omega (arith, h))
