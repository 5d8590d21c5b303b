-- ===== src/DrmApp/Show.antt =====
-- lkml/drm-app/drm_app.c: the loop that paints the buffers, and the whole program.
use Prim.Native.Nat.{bit_and}
use bbblack.Base.{
  Option, ℕ, zero, suc, ◌+◌, ◌*◌, ◌%◌, ltb, ◌==◌, if◌then◌else◌, Bool, true, false, none, some,
  get_elem?, set,
}
use bbblack.Base.Run.{Outcome, exits, Run, ok, faults, ◌>>=◌, ◌>>◌, pure, fault, get}
use bbblack.DrmApp.Types.{Kernel, null, mapped, Slot, Call, Prog, emit, kernel, send}
use bbblack.DrmApp.Scan.{get_resources, scan}

-- A store of a 32-bit word at an index from `fb_base`. Outside what is mapped, and at MAP_FAILED, it
-- ends the program.
abbrev pub can_store : Slot → ℕ → Bool
can_store b p = elim (b.base) [ mapped ↦ ltb (4 * p + 3) b.size | _ ↦ false ]

abbrev pub stored : Slot → ℕ → ℕ → Slot
stored b p col = record b { pixels = λ q. if q == p then col else b.pixels q }

unfoldable pub store : ℕ → ℕ → Run Slot Unit
store p col b = if can_store b p then (ok tt, stored b p col) else (faults, b)

-- The loop over `width`: `n` more of them from `x` on, in row `y`
unfoldable pub paint_row : ℕ → ℕ → ℕ → ℕ → Run Slot Unit
unfolding store
paint_row col y zero x = pure tt
paint_row col y (suc n) x = do b ← get; store (y * b.fb_w + x) col; paint_row col y n (suc x)

-- The loop over `height`
unfoldable pub paint : ℕ → ℕ → ℕ → Run Slot Unit
unfolding paint_row
paint col zero y = pure tt
paint col (suc n) y = do b ← get; paint_row col y b.fb_w 0; paint col n (suc y)

abbrev pub colour : ℕ → ℕ
colour r = bit_and (r % 16777215) 15658734

abbrev pub is_null : Slot → Bool
is_null b = elim (b.base) [ null ↦ true | _ ↦ false ]

-- What was painted, with how that ended
abbrev pub put_slot : {W : Type 0} → ℕ → Outcome Unit × Slot → Prog W Unit
put_slot j (o, c) s = (o, record s { slots = set s.slots j c })

module _ {W : Type 0} (K : Kernel W) where
  -- The body of the loop over the connectors
  unfoldable pub paint_slot : ℕ → Slot → Prog W Unit
  unfolding paint
  paint_slot j b = do r ← kernel K.rand; put_slot j (paint (colour r) b.fb_h 0 b)

  -- By what stands at `fb_base[j]`; outside the array, the program is taken to end.
  unfoldable pub paint_found : ℕ → Option Slot → Prog W Unit
  unfolding paint_slot
  paint_found j none = fault
  paint_found j (some b) = if is_null b then pure tt else paint_slot j b

  unfoldable pub paint_at : ℕ → Prog W Unit
  unfolding paint_found
  paint_at j = do s ← get; paint_found j (get_elem? s.slots j)

  unfoldable pub paint_all : ℕ → ℕ → Prog W Unit
  unfolding paint_at
  paint_all zero j = pure tt
  paint_all (suc n) j = do paint_at j; paint_all n (suc j)

  -- The loop of line 292, `n` more times
  unfoldable pub show : ℕ → Prog W Unit
  unfolding paint_all
  show zero = pure tt
  show (suc n) = do
    s ← get
    paint_all s.res.count_connectors 0
    send (K.usleep 100000)
    emit (Call.usleep 100000)
    show n

  -- From line 56 on
  unfoldable pub run : Prog W ℕ
  unfolding get_resources scan show
  run = do
    send K.get_magic
    get_resources K
    s ← get
    scan K s.res.count_connectors 0
    send K.drop_master
    emit Call.drop_master
    show 500
    pure 0

  unfoldable pub main : Prog W ℕ
  unfolding run
  main = do opened ← kernel K.open_card; if opened then run else (λ s. (exits 255, s))
