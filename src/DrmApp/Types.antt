-- ===== src/DrmApp/Types.antt =====
-- lkml/drm-app/drm_app.c: the variables of `main`, what it asks of the kernel, and what it calls.
use bbblack.Base.{ℕ, ◌+◌, ◌*◌, Bool, Option, none, some, List, [], ◌∷◌, get_elem?, replicate}
use bbblack.Base.Run.{ok, Run}

-- `struct drm_mode_card_res`: the counts, of which the program reads these.
pub record CardRes : Type 0 where
  pub count_fbs : ℕ
  pub count_crtcs : ℕ
  pub count_connectors : ℕ
  pub count_encoders : ℕ

-- The identifiers that the kernel stores at the four pointers. DRM documents each as a pointer to
-- 32-bit words.
pub record Ids : Type 0 where
  pub fbs : List ℕ
  pub crtcs : List ℕ
  pub connectors : List ℕ
  pub encoders : List ℕ

-- `struct drm_mode_modeinfo`: the members that the program reads, and the others as one number.
pub record Mode : Type 0 where
  pub hdisplay : ℕ
  pub vdisplay : ℕ
  pub others : ℕ

-- `struct drm_mode_get_connector`: the members that the program reads or sets.
pub record Connector : Type 0 where
  pub connector_id : ℕ
  pub encoder_id : ℕ
  pub count_modes : ℕ
  pub count_encoders : ℕ
  pub connection : ℕ

-- What the kernel stores at the pointers of the second request for a connector.
pub record Details : Type 0 where
  pub modes : List Mode
  pub props : List ℕ
  pub prop_values : List ℕ
  pub encoders : List ℕ

-- `struct drm_mode_create_dumb`, less `flags`
pub record CreateDumb : Type 0 where
  pub width : ℕ
  pub height : ℕ
  pub bpp : ℕ
  pub pitch : ℕ
  pub handle : ℕ
  pub size : ℕ

-- `struct drm_mode_fb_cmd`, less `fb_id`, which the program only prints
pub record FbCmd : Type 0 where
  pub width : ℕ
  pub height : ℕ
  pub bpp : ℕ
  pub pitch : ℕ
  pub depth : ℕ
  pub handle : ℕ

-- `struct drm_mode_crtc`; `connectors` is what stands at `set_connectors_ptr`.
pub record Crtc : Type 0 where
  pub crtc_id : ℕ
  pub fb_id : ℕ
  pub connectors : List ℕ
  pub gamma_size : ℕ
  pub x : ℕ
  pub y : ℕ
  pub mode_valid : ℕ
  pub mode : Mode

-- The kernel and the C library over a state `W` of theirs. A request that fails replies `none` or
-- `false` and leaves its argument as it was; `create_dumb` replies the pitch, the handle and the size,
-- and `mmap` the 32-bit words that are mapped.
pub record Kernel (W : Type 0) : Type 0 where
  pub open_card : W → Bool × W
  pub get_magic : W → W
  pub get_resources : W → Option CardRes × W
  pub get_ids : CardRes → W → Option (CardRes × Ids) × W
  pub get_connector : Connector → W → Option Connector × W
  pub get_details : Connector → W → Option (Connector × Details) × W
  pub create_dumb : ℕ → ℕ → ℕ → W → Option (ℕ × ℕ × ℕ) × W
  pub add_fb : FbCmd → W → W
  pub map_dumb : ℕ → W → Option ℕ × W
  pub mmap : ℕ → ℕ → W → Option (ℕ → ℕ) × W
  pub get_encoder : ℕ → W → W
  pub get_crtc : ℕ → W → Option Crtc × W
  pub set_crtc : Crtc → W → W
  pub drop_master : W → W
  pub rand : W → ℕ × W
  pub usleep : ℕ → W → W

-- A pointer of `fb_base`: MAP_FAILED is not NULL.
pub data FbBase : Type 0 where
  null map_failed mapped : FbBase

-- `fb_base[j]`, `fb_w[j]` and `fb_h[j]`, with the bytes that are mapped there and their 32-bit words.
pub record Slot : Type 0 where
  pub base : FbBase
  pub fb_w : ℕ
  pub fb_h : ℕ
  pub size : ℕ
  pub pixels : ℕ → ℕ

abbrev pub empty_slot : Slot
empty_slot = record { base = null; fb_w = 0; fb_h = 0; size = 0; pixels = λ p. 0 }

-- The calls that say what is shown. A run records them, the last one first.
pub data Call : Type 0 where
  create_dumb : ℕ → ℕ → Call
  add_fb : FbCmd → Call
  map_dumb : ℕ → Call
  mmap : ℕ → Call
  get_encoder : ℕ → Call
  get_crtc : ℕ → Call
  set_crtc : Crtc → Call
  drop_master : Call
  usleep : ℕ → Call

-- The variables of `main`: `res`, and `res_conn_buf` and `res_enc_buf` as the 32-bit words of the
-- memory they take up. The other two arrays are only printed.
pub record Env (W : Type 0) : Type 0 where
  pub res : CardRes
  pub res_conn_buf : List ℕ
  pub res_enc_buf : List ℕ
  pub slots : List Slot
  pub world : W
  pub calls : List Call

abbrev pub no_res : CardRes
no_res = record { count_fbs = 0; count_crtcs = 0; count_connectors = 0; count_encoders = 0 }

-- An array `uint64_t[10]` of zeros
abbrev pub zeros : List ℕ
zeros = replicate 20 0

abbrev pub initial : {W : Type 0} → W → Env W
initial w = record {
  res = no_res;
  res_conn_buf = zeros;
  res_enc_buf = zeros;
  slots = replicate 50 empty_slot;
  world = w;
  calls = [];
}

abbrev pub Prog : Type 0 → Type 0 → Type 0
Prog W A = Run (Env W) A

module _ {W : Type 0} where
  abbrev pub emit : Call → Prog W Unit
  emit c s = (ok tt, record s { calls = c ∷ s.calls })

  -- A request of the kernel
  abbrev pub kernel : {A : Type 0} → (W → A × W) → Prog W A
  kernel f s = let (a, w) = f s.world in (ok a, record s { world = w })

  -- A request whose result is not used
  abbrev pub send : (W → W) → Prog W Unit
  send f s = (ok tt, record s { world = f s.world })

-- Element `i` of an array of 64-bit words, of which the list has the halves, the low one first.
abbrev pub word64 : List ℕ → ℕ → Option ℕ
word64 ws i = elim (get_elem? ws (2 * i)) [
  | none ↦ none
  | some lo ↦ elim (get_elem? ws (2 * i + 1)) [
    | none ↦ none
    | some hi ↦ some (lo + 4294967296 * hi)
  ]
]
