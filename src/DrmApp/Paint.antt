-- ===== src/DrmApp/Paint.antt =====
-- lkml/drm-app/drm_app.c: which words of a buffer the loops over the rows and columns set.
use bbblack.Base.{
  ℕ, zero, suc, ◌+◌, ◌*◌, ◌≤◌, ◌≡◌, refl, leb, ltb, lt→ltb, ap, ◌∙◌, false, ◌&&◌, if◌then◌else◌,
  Bool, true, arith,
}
use bbblack.Base.Run.{faults, On, On-and_then, On-map}
use bbblack.DrmApp.Types.{mapped, map_failed, Slot}
use bbblack.DrmApp.Show.{can_store, store, stored, paint_row, paint}

-- From `b` to `c`, the words from `lo` up to `hi` were set to `col`, and nothing else.
pub record IsPainted (col lo hi : ℕ) (b c : Slot) : Type 0 where
  pub base : c.base ≡ b.base
  pub fb_w : c.fb_w ≡ b.fb_w
  pub fb_h : c.fb_h ≡ b.fb_h
  pub size : c.size ≡ b.size
  pub pixels : (q : ℕ) → c.pixels q ≡ (if leb lo q && ltb q hi then col else b.pixels q)

module _ (col : ℕ) where
  unpainted : (b : Slot) (lo : ℕ) → IsPainted col lo lo b b
  unpainted b lo = record {
    base = refl;
    fb_w = refl;
    fb_h = refl;
    size = refl;
    pixels = λ q. ground arith;
  }

  one-IsPainted : (b : Slot) (p : ℕ) → IsPainted col p (suc p) b (stored b p col)
  one-IsPainted b p = record {
    base = refl;
    fb_w = refl;
    fb_h = refl;
    size = refl;
    pixels = λ q. ground arith;
  }

  IsPainted-trans :
      (lo mid hi : ℕ) (b c d : Slot)
      → lo ≤ mid
      → mid ≤ hi
      → IsPainted col lo mid b c
      → IsPainted col mid hi c d
      → IsPainted col lo hi b d
  IsPainted-trans lo mid hi b c d l m f g = record {
    base = cc (f.base, g.base);
    fb_w = cc (f.fb_w, g.fb_w);
    fb_h = cc (f.fb_h, g.fb_h);
    size = cc (f.size, g.size);
    pixels = λ q. ground (arith, f.pixels q, g.pixels q);
  }

  at_bounds :
      (lo lo' hi hi' : ℕ) (b c : Slot)
      → lo ≡ lo'
      → hi ≡ hi'
      → IsPainted col lo hi b c
      → IsPainted col lo' hi' b c
  at_bounds lo lo' hi hi' b c e f p = rw⁻¹ e (rw⁻¹ f p)

  pub store_lem :
      (b : Slot) (p : ℕ)
      → b.base ≡ mapped
      → 4 * suc p ≤ b.size
      → On (λ _ c. IsPainted col p (suc p) b c) (λ _. ⊥) (store p col b)
  unfolding store
  store_lem b p m h =
      let can : can_store b p ≡ true =
        ap (λ x. elim x as (λ _. Bool) [ mapped ↦ ltb (4 * p + 3) b.size | _ ↦ false ]) m
        ∙ lt→ltb (4 * p + 3) b.size (omega arith) in
      rw can (one-IsPainted b p)

  row-IsPainted :
      (y n x : ℕ) (b : Slot)
      → b.base ≡ mapped
      → 4 * (y * b.fb_w + x + n) ≤ b.size
      → On
          (λ _ c. IsPainted col (y * b.fb_w + x) (y * b.fb_w + x + n) b c)
          (λ _. ⊥)
          (paint_row col y n x b)
  unfolding paint_row
  row-IsPainted y zero x b m h =
      at_bounds (y * b.fb_w + x) (y * b.fb_w + x) (y * b.fb_w + x) (y * b.fb_w + x + 0) b b refl
        (omega arith) (unpainted b (y * b.fb_w + x))
  row-IsPainted y (suc n) x b m h =
      On-and_then (λ _ c. IsPainted col (y * b.fb_w + x) (suc (y * b.fb_w + x)) b c)
        (λ _ c. IsPainted col (y * b.fb_w + x) (y * b.fb_w + x + suc n) b c) (λ _. ⊥)
        (store (y * b.fb_w + x) col b) (λ _. paint_row col y n (suc x))
        (store_lem b (y * b.fb_w + x) m (omega arith))
        λ _ c f.
          On-map (λ _ d. IsPainted col (y * c.fb_w + suc x) (y * c.fb_w + suc x + n) c d)
            (λ _ d. IsPainted col (y * b.fb_w + x) (y * b.fb_w + x + suc n) b d) (λ _. ⊥) (λ _. ⊥)
            (paint_row col y n (suc x) c)
            (row-IsPainted y n (suc x) c (f.base ∙ m) (rw (f.fb_w, f.size) (omega arith)))
            (λ _ d g.
              IsPainted-trans (y * b.fb_w + x) (suc (y * b.fb_w + x)) (y * b.fb_w + x + suc n) b c d
                (omega arith) (omega arith) f
                (at_bounds (y * c.fb_w + suc x) (suc (y * b.fb_w + x)) (y * c.fb_w + suc x + n)
                  (y * b.fb_w + x + suc n) c d (rw (f.fb_w) (omega arith))
                  (rw (f.fb_w) (omega arith)) g))
            (λ _ e. e)

  rows-IsPainted :
      (n y : ℕ) (b : Slot)
      → b.base ≡ mapped
      → 4 * ((y + n) * b.fb_w) ≤ b.size
      → On (λ _ c. IsPainted col (y * b.fb_w) ((y + n) * b.fb_w) b c) (λ _. ⊥) (paint col n y b)
  unfolding paint
  rows-IsPainted zero y b m h =
      at_bounds (y * b.fb_w) (y * b.fb_w) (y * b.fb_w) ((y + 0) * b.fb_w) b b refl (omega arith)
        (unpainted b (y * b.fb_w))
  rows-IsPainted (suc n) y b m h =
      let w : ℕ = b.fb_w in
      let row_fits : 4 * (y * w + 0 + w) ≤ b.size = omega arith in
      On-and_then (λ _ c. IsPainted col (y * w + 0) (y * w + 0 + w) b c)
        (λ _ c. IsPainted col (y * w) ((y + suc n) * w) b c) (λ _. ⊥) (paint_row col y w 0 b)
        (λ _. paint col n (suc y)) (row-IsPainted y w 0 b m row_fits)
        λ _ c f.
          On-map (λ _ d. IsPainted col (suc y * c.fb_w) ((suc y + n) * c.fb_w) c d)
            (λ _ d. IsPainted col (y * w) ((y + suc n) * w) b d) (λ _. ⊥) (λ _. ⊥)
            (paint col n (suc y) c)
            (rows-IsPainted n (suc y) c (f.base ∙ m) (rw (f.fb_w, f.size) (omega arith)))
            (λ _ d g.
              IsPainted-trans (y * w) (suc y * w) ((y + suc n) * w) b c d (omega arith)
                (omega arith)
                (at_bounds (y * w + 0) (y * w) (y * w + 0 + w) (suc y * w) b c (omega arith)
                  (omega arith) f)
                (at_bounds (suc y * c.fb_w) (suc y * w) ((suc y + n) * c.fb_w) ((y + suc n) * w) c d
                  (rw (f.fb_w) refl) (rw (f.fb_w) (omega arith)) g))
            (λ _ e. e)

  -- The loops over the rows and the columns of a buffer of `fb_w` times `fb_h` words, which what is
  -- mapped has room for, return; they set its first `fb_w * fb_h` words to the colour, and no other.
  pub paint_lem :
      (b : Slot)
      → b.base ≡ mapped
      → 4 * (b.fb_h * b.fb_w) ≤ b.size
      → On (λ _ c. IsPainted col 0 (b.fb_h * b.fb_w) b c) (λ _. ⊥) (paint col b.fb_h 0 b)
  paint_lem b m h =
      On-map (λ _ c. IsPainted col (0 * b.fb_w) ((0 + b.fb_h) * b.fb_w) b c)
        (λ _ c. IsPainted col 0 (b.fb_h * b.fb_w) b c) (λ _. ⊥) (λ _. ⊥) (paint col b.fb_h 0 b)
        (rows-IsPainted b.fb_h 0 b m (omega arith))
        (λ _ c.
          at_bounds (0 * b.fb_w) 0 ((0 + b.fb_h) * b.fb_w) (b.fb_h * b.fb_w) b c (omega arith)
            (omega arith))
        (λ _ e. e)

-- At MAP_FAILED the loops end the program with the first word, if there is one.
pub paint_faults :
    (col n m : ℕ) (b : Slot)
    → b.base ≡ map_failed
    → b.fb_h ≡ suc n
    → b.fb_w ≡ suc m
    → paint col b.fb_h 0 b ≡ (faults, b)
unfolding paint paint_row store
paint_faults col n m b e h w = simp (e, h, w)
