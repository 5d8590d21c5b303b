-- ===== src/Netfilter/Switch.antt =====
-- lkml/netfilter/netfilter.c: the verdict follows the last command, and what is put at the exit.
use bbblack.Base.{
  ℕ, zero, suc, ◌≡◌, refl, ◌∙◌, Bool, true, false, Option, none, some, List, [], ◌∷◌, ◌++◌,
  if◌then◌else◌, arith, All,
}
use bbblack.Netfilter.Hooks.{
  Verdict, accept, drop, Call, kobject_create_and_add, kobject_put, State, nf_store, rx_hook_func,
  tx_hook_func, nf_module, remove_hooks,
}

-- What a text written to the file asks for. A text without a number counts as 0.
abbrev pub command : Option ℕ → Option Verdict
command none = some accept
command (some zero) = some accept
command (some (suc zero)) = some drop
command (some (suc (suc n))) = none

-- A write to the file, or a packet in or out.
pub data Event : Type 0 where
  store : List ℕ → ℕ → Event
  rx tx : Event

module _ (sscanf : List ℕ → Option ℕ) where
  -- The state after the events.
  pub run : List Event → State → State
  run [] s = s
  run (store buf count ∷ es) s = run es (nf_store sscanf buf count s).1
  run (_ ∷ es) s = run es s

  -- Events among which no write is a command.
  abbrev pub IsSilent : Event → Type 0
  IsSilent (store buf count) = command (sscanf buf) ≡ none
  IsSilent _ = Unit

  nf_store-command :
      (o : Option ℕ) (buf : List ℕ) (count : ℕ) (v : Verdict) (s : State)
      → sscanf buf ≡ o
      → command o ≡ some v
      → (nf_store sscanf buf count s).1.ret ≡ v
  unfolding nf_store
  nf_store-command o buf count v s e h = ground arith

  nf_store_silent :
      (buf : List ℕ) (count : ℕ) (s : State)
      → command (sscanf buf) ≡ none
      → (nf_store sscanf buf count s).1.ret ≡ s.ret
  unfolding nf_store
  nf_store_silent buf count s h = ground arith

  run_silent : (es : List Event) (s : State) → All IsSilent es → (run es s).ret ≡ s.ret
  unfolding run
  run_silent [] s h = refl
  run_silent (store buf count ∷ es) s (q, h) =
      run_silent es (nf_store sscanf buf count s).1 h ∙ nf_store_silent buf count s q
  run_silent (rx ∷ es) s (_, h) = run_silent es s h
  run_silent (tx ∷ es) s (_, h) = run_silent es s h

  run-append : (es fs : List Event) (s : State) → run (es ++ fs) s ≡ run fs (run es s)
  unfolding run
  run-append [] fs s = refl
  run-append (store buf count ∷ es) fs s = run-append es fs (nf_store sscanf buf count s).1
  run-append (rx ∷ es) fs s = run-append es fs s
  run-append (tx ∷ es) fs s = run-append es fs s

  -- Packets in both directions get the verdict of the last command written, whatever came before it,
  -- and whatever packets and other texts came after.
  pub verdict_of_last_command :
      (before after : List Event) (buf : List ℕ) (count : ℕ) (v : Verdict) (s : State)
      → command (sscanf buf) ≡ some v
      → All IsSilent after
      → let t = run (before ++ (store buf count ∷ after)) s in
        (rx_hook_func t ≡ v) × (tx_hook_func t ≡ v)
  unfolding rx_hook_func tx_hook_func
  verdict_of_last_command before after buf count v s c h =
      let t = run before s in
      let e : (run (before ++ (store buf count ∷ after)) s).ret ≡ v =
        rw (run-append before (store buf count ∷ after) s) (
          unfold run in
          run_silent after (nf_store sscanf buf count t).1 h
          ∙ nf_store-command (sscanf buf) buf count v t refl c) in
      (e, e)

abbrev pub puts : List Call → ℕ
puts [] = 0
puts (kobject_put k ∷ cs) = suc (puts cs)
puts (_ ∷ cs) = puts cs

abbrev pub gets : List Call → ℕ
gets [] = 0
gets (kobject_create_and_add k ∷ cs) = suc (gets cs)
gets (_ ∷ cs) = gets cs

-- Loading and unloading the module puts the directory once for the one reference that it has if the
-- file was created, and once more if it was not.
pub puts-remove_hooks :
    (k : ℕ) (created : Bool) (s : State)
    → s.calls ≡ []
    → let cs = (remove_hooks (nf_module (suc k) created s).1).calls in
      (gets cs ≡ 1) × (puts cs ≡ (if created then 1 else 2))
unfolding nf_module remove_hooks
puts-remove_hooks k true s e = rw e (refl, refl)
puts-remove_hooks k false s e = rw e (refl, refl)
