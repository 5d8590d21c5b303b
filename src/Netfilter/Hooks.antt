-- ===== src/Netfilter/Hooks.antt =====
-- lkml/netfilter/netfilter.c. What the kernel answers is an argument; the calls that change what is
-- registered are recorded in order.
use bbblack.Base.{ℕ, zero, suc, Bool, Option, none, some, List, [], ◌∷◌, ◌++◌, if◌then◌else◌, codes}
use bbblack.Base.Int.{ℤ, pos, minus}

abbrev pub enomem : ℕ
enomem = 12

-- NF_ACCEPT and NF_DROP.
pub data Verdict : Type 0 where
  accept drop : Verdict

-- The two hooks that are registered, by their function and number.
pub data Hook : Type 0 where
  inp_hook outp_hook : Hook

pub data Call : Type 0 where
  kobject_create_and_add : ℕ → Call
  sysfs_create_file : ℕ → Call
  kobject_put : ℕ → Call
  nf_register_hook : Hook → Call
  nf_unregister_hook : Hook → Call

-- `ret`, `dkobj` (NULL is 0) and the calls so far.
pub record State : Type 0 where
  pub ret : Verdict
  pub dkobj : ℕ
  pub calls : List Call

abbrev pub emit : List Call → State → State
emit cs s = record s { calls = s.calls ++ cs }

unfoldable pub nf_show : List ℕ
nf_show = codes "0: Allow Comm, 1: Disable Comm\n"

-- The switch on `rt`.
abbrev pub set_verdict : ℕ → State → State
set_verdict zero s = record s { ret = accept }
set_verdict (suc zero) s = record s { ret = drop }
set_verdict (suc (suc n)) s = s

-- `int rt = 0`, which `sscanf` leaves alone where it converts nothing.
abbrev pub converted : Option ℕ → ℕ
converted none = 0
converted (some n) = n

module _ (sscanf : List ℕ → Option ℕ) where
  -- `sscanf(buf, "%u", &rt)` is an argument: the number that it stores in `rt`, if it stores one.
  unfoldable pub nf_store : List ℕ → ℕ → State → ℕ × State
  nf_store buf count s = (count, set_verdict (converted (sscanf buf)) s)

unfoldable pub rx_hook_func : State → Verdict
rx_hook_func s = s.ret

unfoldable pub tx_hook_func : State → Verdict
tx_hook_func s = s.ret

-- Lines 78 to 94, for the directory `k`: where the file is not created the directory is put, and the
-- initialisation goes on.
init_hooks : Bool → ℕ → State → ℤ × State
init_hooks created k s =
    let t = emit (if created then sysfs_create_file k ∷ [] else kobject_put k ∷ []) s in
    (pos 0, emit (nf_register_hook inp_hook ∷ nf_register_hook outp_hook ∷ []) t)

unfoldable pub nf_module : ℕ → Bool → State → ℤ × State
unfolding init_hooks
nf_module zero created s = (minus enomem, record s { dkobj = 0 })
nf_module (suc k) created s =
    init_hooks created (suc k)
      (emit (kobject_create_and_add (suc k) ∷ []) (record s { dkobj = suc k }))

unfoldable pub remove_hooks : State → State
remove_hooks s =
    emit (kobject_put s.dkobj ∷ nf_unregister_hook inp_hook ∷ nf_unregister_hook outp_hook ∷ []) s
