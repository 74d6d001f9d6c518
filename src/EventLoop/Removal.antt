-- ===== src/EventLoop/Removal.antt =====
-- removeChannel while the loop handles events.
use wserver.Prelude.{
  ℕ, ◌≡◌, refl, ap, true, Option, none, some, stop, fatal, Bool-cases, inl, inr, arith,
}
use wserver.EventLoop.{EventLoop, is_current, check_removal}
use wserver.EventLoop.Wakeup.{System, handling, Reachable}
use wserver.EventLoop.Order.{Handling, Reachable-Handling}

current_lem : (o : Option ℕ) (c : ℕ) → is_current o c ≡ true → o ≡ some c
current_lem none c e = absurd (cc)
current_lem (some b) c e = ap some (ground arith)

check_removal-Handling : (c : ℕ) (l : EventLoop) → Handling l → check_removal c l ≡ stop fatal
unfolding check_removal
check_removal-Handling c l h = elim (Bool-cases (is_current l.current_active_channel c)) [
  | inl t ↦ rw (h.0, t, h.1 c (current_lem l.current_active_channel c t)) refl
  | inr f ↦ rw (h.0, f) refl
]

-- Whatever happened before: while the loop handles the events that poll returned, removeChannel ends
-- in LOG_FATAL for every channel, for one that is not being handled, and for the one that is, since
-- poll returned it.
pub check_removal-Reachable :
    (s : System) (c : ℕ) → Reachable s → s.phase ≡ handling → check_removal c s.loop ≡ stop fatal
check_removal-Reachable s c r e = check_removal-Handling c s.loop (Reachable-Handling s r e)
