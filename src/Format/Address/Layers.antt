-- ===== src/Format/Address/Layers.antt =====
-- Id-layered paths: what the ancestors are, and that two buckets never share a path.
use mathlib.Core.List.{reverse, reverse-append, append_cancel_right, append-nil, append_assoc}
use native.Mathlib.Nat.{div-div-eq-div-mul, pow-succ'}
use apm_repo_sdk_python.Base.{
  ℕ, zero, suc, ◌/◌, ◌^◌, ◌<◌, ◌≡◌, ◌≢◌, refl, sym, ap, ◌∙◌, arith, List, [], ◌∷◌, ◌++◌, Option,
  none, some, ◌==◌, if◌then◌else◌, some-cancel, get_elem?, All,
}
use apm_repo_sdk_python.Base.Decimal.{
  str, str-injective, str-IsDigit, IsDigit, join, join-append, last_split_lem,
}
use apm_repo_sdk_python.Format.Address.{
  layer_loop, id_layer_ancestors, layered, pool_layer_path, split_layer_leaf, slash,
}

-- `str(s >> 10 * k)`, or nothing where the quotient is 0.
abbrev pub layer_name : ℕ → ℕ → Option (List ℕ)
layer_name s k = if s / 1024 ^ k == 0 then none else some (str (s / 1024 ^ k))

layer_name-suc : (s k : ℕ) → layer_name (s / 1024) k ≡ layer_name s (suc k)
layer_name-suc s k = rw (div-div-eq-div-mul, ← pow-succ')

zero-layer_name : (k : ℕ) → layer_name 0 k ≡ none
zero-layer_name k = ground arith

layer_loop-suc :
    (fuel s : ℕ) (acc : List (List ℕ))
    → layer_loop (suc fuel) (suc s) acc ≡ layer_loop fuel (suc s / 1024) (str (suc s) ∷ acc)
unfolding layer_loop
layer_loop-suc fuel s acc = ground arith

layer_loop_lem :
    (fuel s : ℕ) (acc : List (List ℕ))
    → s < fuel
    → (out : List (List ℕ)) × (layer_loop fuel s acc ≡ some (out ++ acc))
      × ((k : ℕ) → get_elem? (reverse out) k ≡ layer_name s k)
unfolding layer_loop
layer_loop_lem zero s acc h = elim h [ ]
layer_loop_lem (suc fuel) zero acc h = ([], refl, λ k. sym (zero-layer_name k))
layer_loop_lem (suc fuel) (suc s) acc h =
    let (out, runs, names) = layer_loop_lem fuel (suc s / 1024) (str (suc s) ∷ acc) (omega arith) in
    (
      out ++ (str (suc s) ∷ []),
      layer_loop-suc fuel s acc ∙ (runs ∙ ap some (sym (append_assoc out (str (suc s) ∷ []) acc))),
      λ k. rw reverse-append (nth out names k),
    )
  where
    nth :
        (out : List (List ℕ))
        → ((k : ℕ) → get_elem? (reverse out) k ≡ layer_name (suc s / 1024) k)
        → (k : ℕ) → get_elem? (str (suc s) ∷ reverse out) k ≡ layer_name (suc s) k
    nth out names zero = ground arith
    nth out names (suc k) = names k ∙ layer_name-suc (suc s) k

-- The loop ends. The `k`-th ancestor from the leaf is named by the id without its lowest
-- 10 * (k + 1) bits, and the ancestors end where nothing is left of the id.
pub id_layer_ancestors_lem :
    (id : ℕ)
    → (out : List (List ℕ)) × (id_layer_ancestors id ≡ some out)
      × ((k : ℕ) → get_elem? (reverse out) k ≡ layer_name id (suc k))
unfolding id_layer_ancestors
id_layer_ancestors_lem id =
    let (out, runs, names) = layer_loop_lem (suc id) (id / 1024) [] (omega arith) in
    (out, runs ∙ ap some (append-nil out), λ k. names k ∙ layer_name-suc id k)

no_slash : (n : ℕ) → All (λ c. c ≢ slash) (str n)
no_slash n = weaken (str n) (str-IsDigit n)
  where
    weaken : (cs : List ℕ) → All IsDigit cs → All (λ c. c ≢ slash) cs
    weaken [] h = tt
    weaken (c ∷ cs) h = (omega arith, weaken cs h.1)

layered_lem :
    (first leaf : List ℕ) (id : ℕ) {out : List (List ℕ)}
    → id_layer_ancestors id ≡ some out
    → layered first id leaf ≡ some (join slash (first ∷ out) ++ (slash ∷ leaf))
unfolding layered
layered_lem first leaf id {out} h = ground (arith, join-append slash first out leaf)

-- A bucket's path is always computed, and splits into its directory and its own id.
pub split_layer_leaf-pool_layer_path :
    (s b : ℕ)
    → (dir : List ℕ) × (pool_layer_path s b ≡ some (dir ++ (slash ∷ str b)))
      × (split_layer_leaf (dir ++ (slash ∷ str b)) ≡ (dir, str b))
unfolding pool_layer_path split_layer_leaf
split_layer_leaf-pool_layer_path s b =
    let (out, runs, _) = id_layer_ancestors_lem b in
    let dir : List ℕ = join slash (str s ∷ out) in
    (
      dir,
      layered_lem (str s) (str b) b runs,
      rw (last_split_lem slash dir (str b) (no_slash b), split_layer_leaf),
    )

join-cancel :
    (x y : List ℕ) (rest : List (List ℕ)) → join slash (x ∷ rest) ≡ join slash (y ∷ rest) → x ≡ y
unfolding join
join-cancel x y [] e = e
join-cancel x y (z ∷ rest) e = append_cancel_right x y (slash ∷ join slash (z ∷ rest)) e

same_path :
    (s b t c : ℕ) {p q : List ℕ}
    → pool_layer_path s b ≡ some p
    → pool_layer_path t c ≡ some q
    → p ≡ q
    → b ≡ c
same_path s b t c {p} {q} hp hq e =
    let (dir, runs, splits) = split_layer_leaf-pool_layer_path s b in
    let (dir', runs', splits') = split_layer_leaf-pool_layer_path t c in str-injective b c (cc)

-- Two buckets have one path only if they are one bucket of one stream.
pub pool_layer_path-injective :
    (s b t c : ℕ) → pool_layer_path s b ≡ pool_layer_path t c → (s ≡ t) × (b ≡ c)
unfolding pool_layer_path
pool_layer_path-injective s b t c e =
    let (out, runs, _) = id_layer_ancestors_lem b in
    let (dir, whole, _) = split_layer_leaf-pool_layer_path s b in
    let (dir', whole', _) = split_layer_leaf-pool_layer_path t c in
    let same_id : b ≡ c = same_path s b t c whole whole' (cc) in
    let path : layered (str s) b (str b) ≡ some (join slash (str s ∷ out) ++ (slash ∷ str b)) =
      layered_lem (str s) (str b) b runs in
    let path' : layered (str t) b (str b) ≡ some (join slash (str t ∷ out) ++ (slash ∷ str b)) =
      layered_lem (str t) (str b) b runs in
    let same_join : join slash (str s ∷ out) ≡ join slash (str t ∷ out) =
      append_cancel_right _ _ (slash ∷ str b) (
        some-cancel
          (sym path ∙ (e ∙ (ap (λ (k : ℕ). layered (str t) k (str k)) (sym same_id) ∙ path')))) in
    (str-injective s t (join-cancel (str s) (str t) out same_join), same_id)
