-- ===== src/DrmApp/Scan.antt =====
-- lkml/drm-app/drm_app.c: `main` as far as the requests for the resources and for each connector.
use bbblack.Base.{
  ℕ, zero, suc, ◌%◌, ◌==◌, ltb, not, ◌||◌, if◌then◌else◌, Bool, Option, none, some, List, [], ◌∷◌,
  length, set, overwrite, get_or, replicate,
}
use bbblack.Base.Run.{◌>>=◌, ◌>>◌, pure, fault, get, modify}
use bbblack.DrmApp.Types.{
  CardRes, Ids, Mode, Connector, Details, CreateDumb, FbCmd, Crtc, Kernel, map_failed, mapped, Slot,
  Call, zeros, Prog, emit, kernel, send, word64,
}

-- The argument of a request after it
abbrev pub replied : {A : Type 0} → Option A → A → A
replied none a = a
replied (some b) a = b

-- `conn_mode_buf[50]` as it is declared
abbrev pub no_mode : Mode
no_mode = record { hdisplay = 0; vdisplay = 0; others = 0 }

abbrev pub no_modes : List Mode
no_modes = replicate 50 no_mode

abbrev pub no_crtc : Crtc
no_crtc = record {
  crtc_id = 0;
  fb_id = 0;
  connectors = [];
  gamma_size = 0;
  x = 0;
  y = 0;
  mode_valid = 0;
  mode = no_mode;
}

-- What is stored at the pointers of a request goes past the end of an array.
abbrev pub ids_overflow : Ids → Bool
ids_overflow ids =
    ltb 20 (length ids.fbs)
    || ltb 20 (length ids.crtcs)
    || ltb 20 (length ids.connectors)
    || ltb 20 (length ids.encoders)

abbrev pub details_overflow : Details → Bool
details_overflow d =
    ltb 50 (length d.modes)
    || ltb 100 (length d.props)
    || ltb 50 (length d.prop_values)
    || ltb 100 (length d.encoders)

-- A read of an array. C does not define what a read outside it does, so a run of the model goes as far as
-- that read, and ends there with `faults`.
abbrev pub or_fault : {W : Type 0} → Option ℕ → Prog W ℕ
or_fault none = fault
or_fault (some v) = pure v

abbrev pub array_at : {W : Type 0} → List ℕ → ℕ → Prog W ℕ
array_at ws i = or_fault (word64 ws i)

-- `res_conn_buf[2] = 201`
abbrev pub force_connector : List ℕ → List ℕ
force_connector ws = set (set ws 4 201) 5 0

-- `create_dumb` after its request
abbrev pub created : ℕ → ℕ → Option (ℕ × ℕ × ℕ) → CreateDumb
created w h none = record { width = w; height = h; bpp = 32; pitch = 0; handle = 0; size = 0 }
created w h (some (pitch, handle, size)) = record {
  width = w;
  height = h;
  bpp = 32;
  pitch = pitch;
  handle = handle;
  size = size;
}

abbrev pub fb_cmd : CreateDumb → FbCmd
fb_cmd c = record {
  width = c.width;
  height = c.height;
  bpp = c.bpp;
  pitch = c.pitch;
  depth = 24;
  handle = c.handle;
}

-- The entries `i` of `fb_base`, `fb_w` and `fb_h`, and what is mapped there
abbrev pub new_slot : CreateDumb → Option (ℕ → ℕ) → Slot
new_slot c none = record {
  base = map_failed;
  fb_w = c.width;
  fb_h = c.height;
  size = 0;
  pixels = λ p. 0;
}
new_slot c (some words) = record {
  base = mapped;
  fb_w = c.width;
  fb_h = c.height;
  size = c.size;
  pixels = words;
}

-- The CRTC that is set: lines 272 to 280
abbrev pub chosen : Crtc → ℕ → Mode → Crtc
chosen crtc id mode = record crtc {
  crtc_id = 197;
  fb_id = 211;
  connectors = id % 4294967296 ∷ [];
  mode = mode;
  mode_valid = 1;
}

-- The condition of line 184
abbrev pub is_skipped : ℕ → Connector → Bool
is_skipped id conn =
    not (id == 201) || ltb conn.count_encoders 1 || ltb conn.count_modes 1 || conn.connection == 0

abbrev pub asked : ℕ → ℕ → Connector
asked id encoder = record {
  connector_id = id % 4294967296;
  encoder_id = encoder % 4294967296;
  count_modes = 0;
  count_encoders = 0;
  connection = 0;
}

module _ {W : Type 0} (K : Kernel W) where
  -- The two requests for the resources, and the assignment after them
  unfoldable pub store_ids : Option (CardRes × Ids) → Prog W Unit
  store_ids none = pure tt
  store_ids (some (res, ids)) =
      if ids_overflow ids
      then fault
      else modify (λ s. record s {
        res = res;
        res_conn_buf = overwrite ids.connectors zeros;
        res_enc_buf = overwrite ids.encoders zeros;
      })

  unfoldable pub get_resources : Prog W Unit
  unfolding store_ids
  get_resources = do
    first ← kernel K.get_resources
    modify (λ s. record s { res = replied first s.res })
    s ← get
    second ← kernel (K.get_ids s.res)
    store_ids second
    modify (λ s. record s { res_conn_buf = force_connector s.res_conn_buf })

  -- The buffer for connector `i`: lines 196 to 233
  unfoldable pub create_buffer : ℕ → Mode → Prog W Unit
  create_buffer i mode = do
    reply ← kernel (K.create_dumb mode.hdisplay mode.vdisplay 32)
    let c = created mode.hdisplay mode.vdisplay reply
    emit (Call.create_dumb c.width c.height)
    send (K.add_fb (fb_cmd c))
    emit (Call.add_fb (fb_cmd c))
    offset ← kernel (K.map_dumb c.handle)
    emit (Call.map_dumb c.handle)
    words ← kernel (K.mmap c.size (replied offset 0))
    emit (Call.mmap c.size)
    modify (λ s. record s { slots = set s.slots i (new_slot c words) })

  -- Lines 249 to 283
  unfoldable pub set_mode : ℕ → ℕ → Mode → Prog W Unit
  set_mode encoder id mode = do
    send (K.get_encoder encoder)
    emit (Call.get_encoder encoder)
    reply ← kernel (K.get_crtc 197)
    emit (Call.get_crtc 197)
    let crtc = chosen (replied reply (record no_crtc { crtc_id = 197 })) id mode
    send (K.set_crtc crtc)
    emit (Call.set_crtc crtc)

  -- The rest of the body of the loop, from line 182. The loop of line 245 reads as many modes as
  -- there are said to be; there are 50.
  unfoldable pub use_connector : ℕ → ℕ → ℕ → Connector → List Mode → Prog W Unit
  unfolding create_buffer set_mode
  use_connector i id encoder conn modes = if is_skipped id conn then pure tt else (do
    create_buffer i (get_or modes 0 no_mode)
    if ltb 50 conn.count_modes then fault else pure tt
    set_mode (encoder % 4294967296) id (get_or modes 0 no_mode))

  unfoldable pub with_details : ℕ → ℕ → ℕ → Connector → Option (Connector × Details) → Prog W Unit
  unfolding use_connector
  with_details i id encoder conn none = use_connector i id encoder conn no_modes
  with_details i id encoder conn (some (c, d)) =
      if details_overflow d
      then fault
      else use_connector i id encoder c (overwrite d.modes no_modes)

  -- The body of the loop over the connectors, from the second array on
  unfoldable pub read_connector : ℕ → ℕ → List ℕ → Prog W Unit
  unfolding with_details
  read_connector i id encoders = do
    encoder ← array_at encoders i
    first ← kernel (K.get_connector (asked id encoder))
    let conn = replied first (asked id encoder)
    second ← kernel (K.get_details conn)
    with_details i id encoder conn second

  unfoldable pub connector : ℕ → Prog W Unit
  unfolding read_connector
  connector i = do s ← get; id ← array_at s.res_conn_buf i; read_connector i id s.res_enc_buf

  -- The loop, from connector `i` on
  unfoldable pub scan : ℕ → ℕ → Prog W Unit
  unfolding connector
  scan zero i = pure tt
  scan (suc n) i = do connector i; scan n (suc i)
