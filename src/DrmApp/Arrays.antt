-- ===== src/DrmApp/Arrays.antt =====
-- lkml/drm-app/drm_app.c: the array `res_conn_buf`, of 64-bit words where the kernel stores 32-bit ones.
use bbblack.Base.{
  ℕ, zero, suc, ◌+◌, ◌*◌, ◌≤◌, none, ◌<◌, ◌≡◌, ◌≢◌, refl, ◌∙◌, ap, List, [], ◌∷◌, some, arith,
  length, set, overwrite, get_elem?, get_or, replicate,
}
use bbblack.DrmApp.Types.{zeros, word64}
use bbblack.DrmApp.Scan.{force_connector}

module _ {A : Type 0} where
  pub get_elem?-set :
      (xs : List A) (i : ℕ) (a : A) → i < length xs → get_elem? (set xs i a) i ≡ some a
  get_elem?-set [] i a h = absurd (omega arith)
  get_elem?-set (x ∷ xs) zero a h = refl
  get_elem?-set (x ∷ xs) (suc i) a h = get_elem?-set xs i a (omega arith)

  pub get_elem?-set_other :
      (xs : List A) (i j : ℕ) (a : A) → i ≢ j → get_elem? (set xs i a) j ≡ get_elem? xs j
  get_elem?-set_other [] i j a h = refl
  get_elem?-set_other (x ∷ xs) zero zero a h = absurd (h refl)
  get_elem?-set_other (x ∷ xs) zero (suc j) a h = refl
  get_elem?-set_other (x ∷ xs) (suc i) zero a h = refl
  get_elem?-set_other (x ∷ xs) (suc i) (suc j) a h =
      get_elem?-set_other xs i j a (λ e. h (omega arith))

  pub length-set : (xs : List A) (i : ℕ) (a : A) → length (set xs i a) ≡ length xs
  length-set [] i a = refl
  length-set (x ∷ xs) zero a = refl
  length-set (x ∷ xs) (suc i) a = ap suc (length-set xs i a)

  pub length-overwrite : (xs ys : List A) → length (overwrite xs ys) ≡ length ys
  length-overwrite [] ys = refl
  length-overwrite (x ∷ xs) [] = refl
  length-overwrite (x ∷ xs) (y ∷ ys) = ap suc (length-overwrite xs ys)

pub length-none : (ws : List ℕ) (i : ℕ) → length ws ≤ i → get_elem? ws i ≡ none
length-none [] i h = refl
length-none (x ∷ ws) zero h = absurd (omega arith)
length-none (x ∷ ws) (suc i) h = length-none ws i (omega arith)

get_elem?-replicate : (n i : ℕ) → i < n → get_elem? {A = ℕ} (replicate n 0) i ≡ some 0
get_elem?-replicate zero i h = absurd (omega arith)
get_elem?-replicate (suc n) zero h = refl
get_elem?-replicate (suc n) (suc i) h = get_elem?-replicate n i (omega arith)

get_elem?-overwrite :
    (n : ℕ) (xs : List ℕ) (i : ℕ)
    → i < n
    → get_elem? (overwrite xs (replicate n 0)) i ≡ some (get_or xs i 0)
get_elem?-overwrite n [] i h = get_elem?-replicate n i h
get_elem?-overwrite zero (x ∷ xs) i h = absurd (omega arith)
get_elem?-overwrite (suc n) (x ∷ xs) zero h = refl
get_elem?-overwrite (suc n) (x ∷ xs) (suc i) h = get_elem?-overwrite n xs i (omega arith)

pub word64_of :
    (ws : List ℕ) (i lo hi : ℕ)
    → get_elem? ws (2 * i) ≡ some lo
    → get_elem? ws (2 * i + 1) ≡ some hi
    → word64 ws i ≡ some (lo + 4294967296 * hi)
word64_of ws i lo hi e f = rw (word64, e) (rw f refl)

-- What the kernel stores as 32-bit words is read as 64-bit words: connector `i` of the loop is made of
-- the identifiers `2 * i` and `2 * i + 1`, except for 2, which is 201 whatever the kernel stored.
pub word64_lem :
    (ids : List ℕ) (i : ℕ)
    → i < 10
    → i ≢ 2
    → word64 (force_connector (overwrite ids zeros)) i
      ≡ some (get_or ids (2 * i) 0 + 4294967296 * get_or ids (2 * i + 1) 0)
word64_lem ids i h ne =
    let ws : List ℕ = overwrite ids zeros in
    let at : (j : ℕ)
        → j < 20
        → j ≢ 4
        → j ≢ 5
        → get_elem? (force_connector ws) j ≡ some (get_or ids j 0) =
      λ j lt n4 n5.
        get_elem?-set_other (set ws 4 201) 5 j 0 (λ e. n5 (omega arith))
        ∙ get_elem?-set_other ws 4 j 201 (λ e. n4 (omega arith))
        ∙ get_elem?-overwrite 20 ids j lt in
    word64_of (force_connector ws) i (get_or ids (2 * i) 0) (get_or ids (2 * i + 1) 0)
      (at (2 * i) (omega arith) (λ e. ne (omega arith)) (λ e. omega arith))
      (at (2 * i + 1) (omega arith) (λ e. omega arith) (λ e. ne (omega arith)))

-- Connector 2 is 201.
pub word64_at_2 : (ids : List ℕ) → word64 (force_connector (overwrite ids zeros)) 2 ≡ some 201
word64_at_2 ids =
    let ws : List ℕ = overwrite ids zeros in
    let len : length ws ≡ 20 = length-overwrite ids zeros in
    word64_of (force_connector ws) 2 201 0
      (get_elem?-set_other (set ws 4 201) 5 4 0 (λ e. omega arith)
        ∙ get_elem?-set ws 4 201 (omega (arith, len)))
      (get_elem?-set (set ws 4 201) 5 0 (omega (arith, len, length-set ws 4 201)))

pub get_elem?-some :
    {A : Type 0} (xs : List A) (i : ℕ) → i < length xs → (a : A) × (get_elem? xs i ≡ some a)
get_elem?-some [] i h = absurd (omega arith)
get_elem?-some (x ∷ xs) zero h = (x, refl)
get_elem?-some (x ∷ xs) (suc i) h = get_elem?-some xs i (omega arith)

-- Every element of an array of ten 64-bit words can be read.
pub word64-some : (ws : List ℕ) (i : ℕ) → length ws ≡ 20 → i < 10 → (v : ℕ) × (word64 ws i ≡ some v)
word64-some ws i h lt =
    let (lo, e) = get_elem?-some ws (2 * i) (omega arith) in
    let (hi, f) = get_elem?-some ws (2 * i + 1) (omega arith) in
    (lo + 4294967296 * hi, word64_of ws i lo hi e f)
