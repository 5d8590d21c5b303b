-- ===== src/DrmApp/Makes.antt =====
-- lkml/drm-app/drm_app.c: just which entries get a buffer, on a card whose connector 201 is in use.
use bbblack.Base.{ℕ, ◌<◌, ◌≡◌, ◌≢◌, false, Option, none, some, List, get_elem?, length}
use bbblack.DrmApp.Types.{Connector, Details, Kernel, null, Slot, Env, word64}
use bbblack.DrmApp.Scan.{is_skipped, asked, replied}

-- The entry `i` of `fb_base` is not NULL.
abbrev pub IsMade : List Slot → ℕ → Type 0
IsMade slots i = (b : Slot) × (get_elem? slots i ≡ some b) × (b.base ≢ null)

-- A reply with which connector 201 is not skipped
abbrev pub InUse : Option (Connector × Details) → Type 0
InUse none = ⊥
InUse (some (c, d)) = is_skipped 201 c ≡ false

module _ {W : Type 0} (K : Kernel W)
    (in_use : (encoder : ℕ) (w : W)
      → let (first, v) = K.get_connector (asked 201 encoder) w in
        InUse (K.get_details (replied first (asked 201 encoder)) v).0)
    (ws : List ℕ) (len : length ws ≡ 20) where
  -- The entries before `i` that were read as 201 have a buffer.
  record MadeBefore (i : ℕ) (s : Env W) : Type 0 where
    read : s.res_conn_buf ≡ ws
    room : length s.slots ≡ 50
    made : (j : ℕ) → j < i → word64 ws j ≡ some 201 → IsMade s.slots j
