-- ===== src/EventLoop/Order.antt =====
-- The invariant of a loop and the threads that queue functors.
use wserver.Prelude.{
  ℕ, suc, ◌+◌, ◌≡◌, ◌≢◌, ◌<◌, refl, sym, ap, subst, ◌∙◌, true, false, none, some, List, [], ◌∷◌,
  ◌++◌, append-nil, append_assoc, arith,
}
use wserver.EventLoop.{
  EventLoop, new, wakeup, wakeup_if_needed, push, queue_in_loop, handle_read, begin_events,
  end_events, swap_pending, finish_pending, quit_loop, activate, is_member,
}
use wserver.EventLoop.Wakeup.{
  Phase, polling, handling, stopped, running, System, start, Step, other_push, other_wakeup,
  other_quits, poll_returns, drain, dispatch, handler_queues, functor_queues, swap, call, again,
  leave, Reachable, begin, next,
}

abbrev pub left : Phase → List ℕ
left (running fs) = fs
left _ = []

-- Where functors wait, the eventfd is readable, or a thread is about to write to it.
abbrev pub Awake : EventLoop → ℕ → Type 0
Awake l owed = l.pending_functors ≢ [] → 0 < l.eventfd + owed

abbrev Mode : Phase → EventLoop → ℕ → Type 0
Mode polling l owed = (l.calling_pending_functors ≡ false) × Awake l owed
Mode handling l owed = l.calling_pending_functors ≡ false
Mode (running fs) l owed = (l.calling_pending_functors ≡ true) × Awake l owed
Mode stopped l owed = Unit {0}

-- The channel whose handlers run is one of those that poll returned.
abbrev pub Handling : EventLoop → Type 0
Handling l =
    (l.event_handling ≡ true)
    × ((b : ℕ) → l.current_active_channel ≡ some b → is_member b l.active_channels ≡ true)

abbrev Current : Phase → EventLoop → Type 0
Current handling l = Handling l
Current _ l = l.current_active_channel ≡ none

record Inv (s : System) : Type 0 where
  order : s.ran ++ (left s.phase ++ s.loop.pending_functors) ≡ s.queued
  mode : Mode s.phase s.loop s.owed
  current : Current s.phase s.loop

-- A change that keeps the flag and leaves the loop awake keeps the mode.
Mode-keep :
    (p : Phase) (l l' : EventLoop) (o o' : ℕ)
    → l'.calling_pending_functors ≡ l.calling_pending_functors
    → (Awake l o → Awake l' o')
    → Mode p l o
    → Mode p l' o'
Mode-keep polling l l' o o' e f m = (e ∙ m.0, f m.1)
Mode-keep handling l l' o o' e f m = e ∙ m
Mode-keep (running fs) l l' o o' e f m = (e ∙ m.0, f m.1)
Mode-keep stopped l l' o o' e f m = tt

Current-keep :
    (p : Phase) (l l' : EventLoop)
    → l'.current_active_channel ≡ l.current_active_channel
    → l'.active_channels ≡ l.active_channels
    → l'.event_handling ≡ l.event_handling
    → Current p l
    → Current p l'
Current-keep handling l l' c a h m = (h ∙ m.0, λ b e. ap (λ x. is_member b x) a ∙ m.1 b (sym c ∙ e))
Current-keep polling l l' c a h m = c ∙ m
Current-keep (running fs) l l' c a h m = c ∙ m
Current-keep stopped l l' c a h m = c ∙ m

-- A functor at the end of the queue.
queued_last :
    (ran xs pending queued : List ℕ) (f : ℕ)
    → ran ++ (xs ++ pending) ≡ queued
    → ran ++ (xs ++ (pending ++ f ∷ [])) ≡ queued ++ f ∷ []
queued_last ran xs pending queued f e =
    ap (λ x. ran ++ x) (sym (append_assoc xs pending (f ∷ [])))
    ∙ sym (append_assoc ran (xs ++ pending) (f ∷ []))
    ∙ ap (λ x. x ++ f ∷ []) e

module _ (s : System) (q : Phase) (e : s.phase ≡ q) (i : Inv s) where
  order_at : s.ran ++ (left q ++ s.loop.pending_functors) ≡ s.queued
  order_at = subst (λ p. s.ran ++ (left p ++ s.loop.pending_functors) ≡ s.queued) e i.order

  Current-at : Current q s.loop
  Current-at = subst (λ p. Current p s.loop) e i.current

  Mode-at : Mode q s.loop s.owed
  Mode-at = subst (λ p. Mode p s.loop s.owed) e i.mode

-- queueInLoop in the loop's own thread.
module _ (f : ℕ) (l : EventLoop) where
  own_pending : (queue_in_loop true f l).pending_functors ≡ l.pending_functors ++ f ∷ []
  unfolding queue_in_loop wakeup_if_needed wakeup push
  own_pending = ground arith

  own_calling : (queue_in_loop true f l).calling_pending_functors ≡ l.calling_pending_functors
  unfolding queue_in_loop wakeup_if_needed wakeup push
  own_calling = ground arith

  own-Current : (p : Phase) → Current p l → Current p (queue_in_loop true f l)
  unfolding queue_in_loop wakeup_if_needed wakeup push
  own-Current p m =
      Current-keep p l (queue_in_loop true f l) (ground arith) (ground arith) (ground arith) m

  own-Awake : (owed : ℕ) → l.calling_pending_functors ≡ true → Awake (queue_in_loop true f l) owed
  unfolding queue_in_loop wakeup_if_needed wakeup push
  own-Awake owed e n = ground arith

none-some : {c : ℕ} → none ≢ some c
none-some e = cc

some_inj : {b c : ℕ} → some b ≡ some c → b ≡ c
some_inj e = cc

preserved : {s t : System} → Step s t → Inv s → Inv t
unfolding push wakeup wakeup_if_needed handle_read begin_events end_events swap_pending
    finish_pending quit_loop activate
preserved (other_push s f) i = record {
  order = queued_last s.ran (left s.phase) s.loop.pending_functors s.queued f i.order;
  mode =
      Mode-keep s.phase s.loop (push f s.loop) s.owed (suc s.owed) refl (λ a n. omega arith) i.mode;
  current = Current-keep s.phase s.loop (push f s.loop) refl refl refl i.current;
}
preserved (other_wakeup s n e) i = record {
  order = i.order;
  mode = Mode-keep s.phase s.loop (wakeup s.loop) s.owed n refl (λ a m. omega arith) i.mode;
  current = Current-keep s.phase s.loop (wakeup s.loop) refl refl refl i.current;
}
preserved (other_quits s) i = record {
  order = i.order;
  mode =
      Mode-keep s.phase s.loop (quit_loop false s.loop) s.owed s.owed refl (λ a m. omega arith)
        i.mode;
  current = Current-keep s.phase s.loop (quit_loop false s.loop) refl refl refl i.current;
}
preserved (poll_returns s active e) i = record {
  order = order_at s _ e i;
  mode = (Mode-at s _ e i).0;
  current = (refl, λ b h. absurd (none-some (sym (Current-at s _ e i) ∙ h)));
}
preserved (drain s e) i = record {
  order = i.order;
  mode = subst (λ p. Mode p (handle_read s.loop) s.owed) (sym e) (Mode-at s _ e i);
  current = Current-keep s.phase s.loop (handle_read s.loop) refl refl refl i.current;
}
preserved (dispatch s c e m) i = record {
  order = i.order;
  mode = subst (λ p. Mode p (activate c s.loop) s.owed) (sym e) (Mode-at s _ e i);
  current =
      subst (λ p. Current p (activate c s.loop)) (sym e)
        (
          (Current-at s _ e i).0,
          λ b h. subst (λ x. is_member x s.loop.active_channels ≡ true) (some_inj h) m,
        );
}
preserved (handler_queues s f e) i = record {
  order =
      ap (λ x. s.ran ++ (left s.phase ++ x)) (own_pending f s.loop)
      ∙ queued_last s.ran (left s.phase) s.loop.pending_functors s.queued f i.order;
  mode =
      subst (λ p. Mode p (queue_in_loop true f s.loop) s.owed) (sym e)
        (own_calling f s.loop ∙ Mode-at s _ e i);
  current = own-Current f s.loop s.phase i.current;
}
preserved (functor_queues s f fs e) i = record {
  order =
      ap (λ x. s.ran ++ (left s.phase ++ x)) (own_pending f s.loop)
      ∙ queued_last s.ran (left s.phase) s.loop.pending_functors s.queued f i.order;
  mode =
      subst (λ p. Mode p (queue_in_loop true f s.loop) s.owed) (sym e)
        (own_calling f s.loop ∙ (Mode-at s _ e i).0, own-Awake f s.loop s.owed (Mode-at s _ e i).0);
  current = own-Current f s.loop s.phase i.current;
}
preserved (swap s e) i = record {
  order = ap (λ x. s.ran ++ x) (append-nil s.loop.pending_functors) ∙ order_at s _ e i;
  mode = (refl, λ n. absurd (n refl));
  current = refl;
}
preserved (call s f fs e) i = record {
  order = append_assoc s.ran (f ∷ []) (fs ++ s.loop.pending_functors) ∙ order_at s _ e i;
  mode = Mode-at s _ e i;
  current = Current-at s _ e i;
}
preserved (again s e q) i = record {
  order = order_at s _ e i;
  mode = (refl, (Mode-at s _ e i).1);
  current = Current-at s _ e i;
}
preserved (leave s e q) i = record {
  order = order_at s _ e i;
  mode = tt;
  current = Current-at s _ e i;
}

reachable : {s : System} → Reachable s → Inv s
unfolding new start
reachable begin = record { order = refl; mode = (refl, λ n. absurd (n refl)); current = refl }
reachable (next r t) = preserved t (reachable r)

-- However the loop's thread and the threads that call queueInLoop interleave, from a loop with nothing
-- pending: when the loop is about to wait in poll and functors are pending, the eventfd is readable, or
-- a thread that queued one has yet to write to it.
pub Reachable-Awake : (s : System) → Reachable s → s.phase ≡ polling → Awake s.loop s.owed
Reachable-Awake s r e = (Mode-at s polling e (reachable r)).1

-- However they interleave: the functors that ran, those that doPendingFunctors is running, and those
-- that are pending, in this order, are exactly those that were queued, in the order of their queuing.
pub Reachable-order :
    (s : System) → Reachable s → s.ran ++ (left s.phase ++ s.loop.pending_functors) ≡ s.queued
Reachable-order s r = (reachable r).order

-- Whatever happened before: while the handlers of a channel run, that channel is among those that
-- poll returned.
pub Reachable-Handling : (s : System) → Reachable s → s.phase ≡ handling → Handling s.loop
Reachable-Handling s r e = Current-at s handling e (reachable r)
