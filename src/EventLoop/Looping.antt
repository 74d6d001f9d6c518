-- ===== src/EventLoop/Looping.antt =====
-- loop() as a whole: the passes of its while, and when it ends. What happens meanwhile, in the loop's
-- own thread and in others, is given with each pass.
use wserver.Prelude.{
  ℕ, ◌≡◌, refl, sym, ap, subst, ◌∙◌, Bool, true, false, ◌||◌, Option, none, some, List, [], ◌∷◌,
  Exec, done, stop, out_of_fuel, if◌then◌else◌, Bool-cases, inl, inr, arith,
}
use wserver.EventLoop.{
  EventLoop, wakeup, wakeup_if_needed, push, queue_in_loop, handle_read, begin_events, activate,
  end_events, swap_pending, finish_pending, quit_loop,
}

-- A call of quit() or of queueInLoop, in the loop's thread or in another one; and the handler of the
-- eventfd.
pub data Act : Type 0 where
  quits : Bool → Act
  queues : Bool → ℕ → Act
  drains : Act

-- A pass: what happens before poll returns, the channels that it returns with what happens while
-- their handlers run, and what happens while the pending functors run.
pub record Pass : Type 0 where
  pub polling : List Act
  pub active : List (ℕ × List Act)
  pub functors : List Act

abbrev pub act : Act → EventLoop → EventLoop
act (quits in_loop) l = quit_loop in_loop l
act (queues in_loop f) l = queue_in_loop in_loop f l
act drains l = handle_read l

abbrev pub acts : List Act → EventLoop → EventLoop
acts [] l = l
acts (a ∷ more) l = acts more (act a l)

abbrev pub channels : List (ℕ × List Act) → List ℕ
channels [] = []
channels (c ∷ cs) = c.0 ∷ channels cs

abbrev pub dispatch_all : List (ℕ × List Act) → EventLoop → EventLoop
dispatch_all [] l = l
dispatch_all (c ∷ cs) l = dispatch_all cs (acts c.1 (activate c.0 l))

-- doPendingFunctors.
unfoldable pub do_pending_functors : List Act → EventLoop → EventLoop
do_pending_functors functors l = finish_pending (acts functors (swap_pending l).0)

-- The body of the while.
unfoldable pub pass : Pass → EventLoop → EventLoop
pass p l =
    let polled = begin_events (channels p.active) (acts p.polling l) in
    do_pending_functors p.functors (end_events (dispatch_all p.active polled))

-- The while; behind the last of the passes poll waits.
unfoldable pub while_not_quit : List Pass → EventLoop → Exec EventLoop
while_not_quit [] l = if l.quit then done l else stop out_of_fuel
while_not_quit (p ∷ ps) l =
    let rest = while_not_quit ps (pass p l) in if l.quit then done l else rest

unfoldable pub loop : List Pass → EventLoop → Exec EventLoop
loop ps l = while_not_quit ps (record l { quit = false })

-- Whether quit() is called.
abbrev pub quitting : List Act → Bool
quitting [] = false
quitting (quits b ∷ more) = true
quitting (queues b f ∷ more) = quitting more
quitting (drains ∷ more) = quitting more

abbrev pub any_quitting : List (ℕ × List Act) → Bool
any_quitting [] = false
any_quitting (c ∷ cs) = quitting c.1 || any_quitting cs

abbrev pub has_quit : Pass → Bool
has_quit p = (quitting p.polling || any_quitting p.active) || quitting p.functors

abbrev behind : Pass → Option (List Pass) → Option (List Pass)
behind p none = none
behind p (some qs) = some (p ∷ qs)

-- The passes up to the first in which quit() is called, with it.
abbrev pub until_quit : List Pass → Option (List Pass)
until_quit [] = none
until_quit (p ∷ ps) =
    let rest = behind p (until_quit ps) in if has_quit p then some (p ∷ []) else rest

abbrev pub passes : List Pass → EventLoop → EventLoop
passes [] l = l
passes (p ∷ ps) l = passes ps (pass p l)

-- What loop() comes to, by those passes.
abbrev pub Ends : Option (List Pass) → EventLoop → Exec EventLoop → Type 0
Ends none l r = r ≡ stop out_of_fuel
Ends (some qs) l r = r ≡ done (passes qs l)

act-quit : (a : Act) (l : EventLoop) → (act a l).quit ≡ (l.quit || quitting (a ∷ []))
unfolding quit_loop queue_in_loop wakeup_if_needed wakeup push handle_read
act-quit (quits in_loop) l = ground arith
act-quit (queues in_loop f) l = ground arith
act-quit drains l = ground arith

acts-quit : (more : List Act) (l : EventLoop) → (acts more l).quit ≡ (l.quit || quitting more)
acts-quit [] l = ground arith
acts-quit (quits b ∷ more) l =
    ground (arith, acts-quit more (act (quits b) l), act-quit (quits b) l)
acts-quit (queues b f ∷ more) l =
    ground (arith, acts-quit more (act (queues b f) l), act-quit (queues b f) l)
acts-quit (drains ∷ more) l = ground (arith, acts-quit more (act drains l), act-quit drains l)

dispatch_all-quit :
    (cs : List (ℕ × List Act)) (l : EventLoop)
    → (dispatch_all cs l).quit ≡ (l.quit || any_quitting cs)
unfolding activate
dispatch_all-quit [] l = ground arith
dispatch_all-quit (c ∷ cs) l =
    ground (arith, dispatch_all-quit cs (acts c.1 (activate c.0 l)), acts-quit c.1 (activate c.0 l))

pass-quit : (p : Pass) (l : EventLoop) → (pass p l).quit ≡ (l.quit || has_quit p)
unfolding pass do_pending_functors begin_events end_events swap_pending finish_pending
pass-quit p l =
    let polled = begin_events (channels p.active) (acts p.polling l) in
    let handled = end_events (dispatch_all p.active polled) in
    ground (
      arith,
      acts-quit p.polling l,
      dispatch_all-quit p.active polled,
      acts-quit p.functors (swap_pending handled).0,
    )

while_not_quit-done :
    (ps : List Pass) (l : EventLoop) → l.quit ≡ true → while_not_quit ps l ≡ done l
unfolding while_not_quit
while_not_quit-done [] l e = rw e refl
while_not_quit-done (p ∷ ps) l e = rw e refl

Ends-behind :
    (p : Pass) (o : Option (List Pass)) (l : EventLoop) (r : Exec EventLoop)
    → Ends o (pass p l) r
    → Ends (behind p o) l r
Ends-behind p none l r e = e
Ends-behind p (some qs) l r e = e

while_not_quit-pass :
    (p : Pass) (ps : List Pass) (l : EventLoop)
    → l.quit ≡ false
    → while_not_quit (p ∷ ps) l ≡ while_not_quit ps (pass p l)
unfolding while_not_quit
while_not_quit-pass p ps l e = ap (λ b. if b then done l else while_not_quit ps (pass p l)) e

while_not_quit-waits : (l : EventLoop) → l.quit ≡ false → while_not_quit [] l ≡ stop out_of_fuel
unfolding while_not_quit
while_not_quit-waits l e = ap (λ b. if b then done l else stop out_of_fuel) e

while_not_quit-Ends :
    (ps : List Pass) (l : EventLoop) → l.quit ≡ false → Ends (until_quit ps) l (while_not_quit ps l)
while_not_quit-Ends [] l e = while_not_quit-waits l e
while_not_quit-Ends (p ∷ ps) l e =
    let ended : (pass p l).quit ≡ has_quit p = pass-quit p l ∙ ap (λ b. b || has_quit p) e in
    subst (Ends (until_quit (p ∷ ps)) l) (sym (while_not_quit-pass p ps l e))
      (elim (Bool-cases (has_quit p)) [
        | inl q ↦ rw q (while_not_quit-done ps (pass p l) (ended ∙ q))
        | inr q ↦ rw q (
            Ends-behind p (until_quit ps) l (while_not_quit ps (pass p l))
              (while_not_quit-Ends ps (pass p l) (ended ∙ q)))
      ])

-- loop(), whatever is called in its passes, in its own thread or in others: it returns behind the
-- first pass in which quit() is called, before poll returns, by a handler or by a functor, and that
-- pass is gone through to its end; where no pass has such a call it goes on, also if quit() was
-- called before loop(), which is forgotten.
pub loop-Ends :
    (ps : List Pass) (l : EventLoop) → Ends (until_quit ps) (record l { quit = false }) (loop ps l)
unfolding loop
loop-Ends ps l = while_not_quit-Ends ps (record l { quit = false }) refl
