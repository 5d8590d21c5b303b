-- ===== src/Dmtimer/Registers.antt =====
-- lkml/dmtimer/dmtimer.c: what the probe programs, and what the interrupt handler acknowledges.
use bbblack.Base.{
  ℕ, ◌+◌, ◌-◌, ◌≡◌, refl, Bool, true, false, ◌&&◌, ◌/◌, ◌%◌, inl, inr, Bool-cases, Option, some,
  List, [], ◌∷◌, ◌==◌, if◌then◌else◌, arith,
}
use bbblack.Base.Int.{pos, is_nonzero}
use bbblack.Base.Word.{u32_mod}
use bbblack.Dmtimer.Driver.{
  Call, request_threaded_irq, iowrite32, handle_nested_irq, State, Answers, returns, probe,
  irq_handler,
}
use bbblack.Dmtimer.Probe.{probe-Succeeds, probe_lem}

-- The word at an address after the calls, from the word before: the last one written.
abbrev pub word_at : ℕ → Option ℕ → List Call → Option ℕ
word_at addr old [] = old
word_at addr old (iowrite32 v a ∷ cs) = word_at addr (if a == addr then some v else old) cs
word_at addr old (_ ∷ cs) = word_at addr old cs

-- The ticks from one overflow to the next of a 32-bit counter that is reloaded with `load`.
abbrev pub period : ℕ → ℕ
period load = u32_mod - load

-- The nested interrupts that the calls raise, and those that they request a thread for.
abbrev pub raised : List Call → List ℕ
raised [] = []
raised (handle_nested_irq n ∷ cs) = n ∷ raised cs
raised (_ ∷ cs) = raised cs

abbrev pub threaded : List Call → List ℕ
threaded [] = []
threaded (request_threaded_irq n ∷ cs) = n ∷ threaded cs
threaded (_ ∷ cs) = threaded cs

-- A 1 in bit 1, the bit of the overflow in the registers of the timer's interrupts
abbrev has_overflow : ℕ → Bool
has_overflow v = v / 2 % 2 == 1

-- Whether the interrupt at an overflow is enabled after the calls: a 1 enables it at 0x2c and disables it
-- at 0x30, and a 0 does nothing.
abbrev pub overflow_enabled : ℕ → Bool → List Call → Bool
overflow_enabled timer on [] = on
overflow_enabled timer on (iowrite32 v a ∷ cs) =
    overflow_enabled timer
      (if has_overflow v && (a == timer + 0x2c)
        then true
        else if has_overflow v && (a == timer + 0x30)
        then false
        else on)
      cs
overflow_enabled timer on (_ ∷ cs) = overflow_enabled timer on cs

-- Whether an overflow is pending after the calls: a 1 at 0x28 acknowledges it.
abbrev pub overflow_pending : ℕ → Bool → List Call → Bool
overflow_pending timer on [] = on
overflow_pending timer on (iowrite32 v a ∷ cs) =
    overflow_pending timer (if has_overflow v && (a == timer + 0x28) then false else on) cs
overflow_pending timer on (_ ∷ cs) = overflow_pending timer on cs

-- After a probe that succeeds, and that was granted the thread for the nested interrupt, a run of the
-- handler raises just that interrupt, and leaves no overflow pending and the interrupt at an overflow
-- enabled, whatever they were before. It is for a state without earlier calls.
pub irq_handler-probe :
    (a : Answers) (p : ℕ) (s : State)
    → (probe a p s).0 ≡ returns (pos 0)
    → a.request_threaded_irq_ret ≡ pos 0
    → s.calls ≡ []
    → let probed = (probe a p s).1 in
      let t = irq_handler (record probed { calls = [] }) in
      (raised t.calls ≡ threaded probed.calls)
      × ((was : Bool) → overflow_enabled a.timer_map was t.calls ≡ true)
      × ((was : Bool) → overflow_pending a.timer_map was t.calls ≡ false)
unfolding irq_handler
irq_handler-probe a p s h granted e =
    let (r, ok) = probe-Succeeds a p s h in
    rw (probe_lem a p s r ok, e)
      (
        elim (Bool-cases (is_nonzero a.request_irq_ret)) [
          | inl q ↦ rw (q, granted) refl
          | inr q ↦ rw (q, granted) refl
        ],
        λ was. ground arith,
        λ was. ground arith,
      )
