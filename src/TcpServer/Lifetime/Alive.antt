-- ===== src/TcpServer/Lifetime/Alive.antt =====
-- A connection is there when it is used, and disconnected when it goes.
use wserver.Prelude.{
  ◌≡◌, refl, sym, subst, ◌∙◌, Bool, true, false, List, [], ◌∷◌, Exec, done, stop, fatal, ◌>>=◌,
  Returns,
}
use wserver.TcpConnection.{k_connecting, k_connected, k_disconnected}
use wserver.TcpServer.Lifetime.{
  Life, established, destroyed, entered, is_held, release, handle_close, connect_destroyed,
  run_task, Call, closing, keeping, keep, handlers, close_long_connection, remove_in_loop, Action,
  task, expiry, removal, event, closes_last, is_single, act, Reach, begin, later,
}

-- The reachable states: before connectEstablished, open, kept with a timer, closed, removed from the
-- map, and gone; the last three with the two flags of a kept connection or without.
data Shape : Type 0 where
  fresh opened kept : Shape
  closed removed gone : Bool → Shape

abbrev shape : Shape → Life
shape fresh = record {
  state = k_connecting;
  alive = false;
  timeout = false;
  in_map = true;
  loop_tasks = established ∷ [];
  removals = 0;
  timer = false;
}
shape opened = record {
  state = k_connected;
  alive = false;
  timeout = false;
  in_map = true;
  loop_tasks = [];
  removals = 0;
  timer = false;
}
shape kept = record {
  state = k_connected;
  alive = true;
  timeout = false;
  in_map = true;
  loop_tasks = [];
  removals = 0;
  timer = true;
}
shape (closed b) = record {
  state = k_disconnected;
  alive = b;
  timeout = b;
  in_map = true;
  loop_tasks = [];
  removals = 1;
  timer = false;
}
shape (removed b) = record {
  state = k_disconnected;
  alive = b;
  timeout = b;
  in_map = false;
  loop_tasks = destroyed ∷ [];
  removals = 0;
  timer = false;
}
shape (gone b) = record {
  state = k_disconnected;
  alive = b;
  timeout = b;
  in_map = false;
  loop_tasks = [];
  removals = 0;
  timer = false;
}

Shaped : Life → Type 0
Shaped l = (c : Shape) × (l ≡ shape c)

-- The handlers of an event, on an open connection and on a kept one.
kept-Shaped : (cs : List Call) → Returns Shaped (handlers cs (shape kept))
unfolding Shaped handlers handle_close keep
kept-Shaped [] = (_, refl, (kept, refl))
kept-Shaped (closing ∷ cs) = kept-Shaped cs
kept-Shaped (keeping ∷ cs) = kept-Shaped cs

opened-Shaped :
    (cs : List Call) → closes_last cs ≡ true → Returns Shaped (handlers cs (shape opened))
unfolding Shaped handlers handle_close keep
opened-Shaped [] h = (_, refl, (opened, refl))
opened-Shaped (closing ∷ []) h = (_, refl, (closed false, refl))
opened-Shaped (closing ∷ c ∷ cs) h = absurd (cc)
opened-Shaped (keeping ∷ cs) h = kept-Shaped cs

act-Shaped : (c : Shape) (a : Action) → is_single a ≡ true → Returns Shaped (act a (shape c))
unfolding Shaped act run_task release handle_close connect_destroyed keep close_long_connection
    remove_in_loop
act-Shaped fresh task h = (_, refl, (opened, refl))
act-Shaped fresh expiry h = (_, refl, (fresh, refl))
act-Shaped fresh removal h = (_, refl, (fresh, refl))
act-Shaped opened task h = (_, refl, (opened, refl))
act-Shaped opened expiry h = (_, refl, (opened, refl))
act-Shaped opened removal h = (_, refl, (opened, refl))
act-Shaped kept task h = (_, refl, (kept, refl))
act-Shaped kept expiry h = (_, refl, (closed true, refl))
act-Shaped kept removal h = (_, refl, (kept, refl))
act-Shaped (closed b) task h = (_, refl, (closed b, refl))
act-Shaped (closed b) expiry h = (_, refl, (closed b, refl))
act-Shaped (closed b) removal h = (_, refl, (removed b, refl))
act-Shaped (removed b) task h = (_, refl, (gone b, refl))
act-Shaped (removed b) expiry h = (_, refl, (removed b, refl))
act-Shaped (removed b) removal h = (_, refl, (removed b, refl))
act-Shaped (gone b) task h = (_, refl, (gone b, refl))
act-Shaped (gone b) expiry h = (_, refl, (gone b, refl))
act-Shaped (gone b) removal h = (_, refl, (gone b, refl))
act-Shaped fresh (event cs) h = (_, refl, (fresh, refl))
act-Shaped opened (event cs) h = opened-Shaped cs h
act-Shaped kept (event cs) h = kept-Shaped cs
act-Shaped (closed b) (event cs) h = (_, refl, (closed b, refl))
act-Shaped (removed b) (event cs) h = (_, refl, (removed b, refl))
act-Shaped (gone b) (event cs) h = (_, refl, (gone b, refl))

-- What an event that goes on behind handleClose does to a connection that is open and not kept.
abbrev pub Fatal : Life → Exec Life → Type 0
Fatal l r = l.state ≡ k_connected → l.alive ≡ false → r ≡ stop fatal

-- What holds in a reachable state.
pub record Cared (l : Life) : Type 0 where
  pub safe : (a : Action) → is_single a ≡ true → Returns Reach (act a l)
  pub twice : (cs : List Call) → Fatal l (act (event (closing ∷ closing ∷ cs)) l)
  pub revived : Fatal l (act (event (closing ∷ keeping ∷ [])) l >>= act expiry)
  pub goes :
      l.state ≡ k_disconnected → Returns (λ g. is_held g ≡ false) (act removal l >>= act task)
  pub last : is_held l ≡ false → l.state ≡ k_disconnected

shape-goes :
    (c : Shape)
    → (shape c).state ≡ k_disconnected
    → Returns (λ g. is_held g ≡ false) (act removal (shape c) >>= act task)
unfolding act run_task release connect_destroyed remove_in_loop
shape-goes fresh e = absurd (cc e)
shape-goes opened e = absurd (cc e)
shape-goes kept e = absurd (cc e)
shape-goes (closed b) e = (_, refl, refl)
shape-goes (removed b) e = (_, refl, refl)
shape-goes (gone b) e = (_, refl, refl)

shape-twice :
    (c : Shape) (cs : List Call) → Fatal (shape c) (act (event (closing ∷ closing ∷ cs)) (shape c))
unfolding act handlers handle_close
shape-twice fresh cs e a = absurd (cc e)
shape-twice opened cs e a = refl
shape-twice kept cs e a = absurd (cc a)
shape-twice (closed b) cs e a = absurd (cc e)
shape-twice (removed b) cs e a = absurd (cc e)
shape-twice (gone b) cs e a = absurd (cc e)

shape-revived :
    (c : Shape) → Fatal (shape c) (act (event (closing ∷ keeping ∷ [])) (shape c) >>= act expiry)
unfolding act handlers handle_close keep close_long_connection
shape-revived fresh e a = absurd (cc e)
shape-revived opened e a = refl
shape-revived kept e a = absurd (cc a)
shape-revived (closed b) e a = absurd (cc e)
shape-revived (removed b) e a = absurd (cc e)
shape-revived (gone b) e a = absurd (cc e)

shape-last : (c : Shape) → is_held (shape c) ≡ false → (shape c).state ≡ k_disconnected
shape-last fresh e = absurd (cc e)
shape-last opened e = absurd (cc e)
shape-last kept e = absurd (cc e)
shape-last (closed b) e = refl
shape-last (removed b) e = refl
shape-last (gone b) e = refl

done_inj : {A : Type 0} {x y : A} → done x ≡ done y → x ≡ y
done_inj e = cc

Reach-Shaped : (l : Life) → Reach l → Shaped l
unfolding Shaped entered
Reach-Shaped l begin = (fresh, refl)
Reach-Shaped l (later {l = l0} r a h e) =
    let (c, same) = Reach-Shaped l0 r in
    let (l', d, shaped) = subst (λ x. Returns Shaped (act a x)) (sym same) (act-Shaped c a h) in
    subst Shaped (done_inj (sym d ∙ e)) shaped

-- In a state that is reached without an event that goes on behind handleClose, whatever else the order
-- of the loops' steps, of the events and of the timer: every further such step returns, so no functor
-- finds the connection gone and no handler or destructor stops at a LOG_FATAL line; a connection that
-- is disconnected goes with the removal in the main loop and the functor that it queues; and one whose
-- last reference has gone is disconnected. But on a connection that is open and not kept, an event
-- whose handlers call handleClose twice aborts; and one that reads a request that asks to be kept behind
-- handleClose sets a timer, which aborts when it expires next.
pub Reach-Cared : (l : Life) → Reach l → Cared l
unfolding Shaped
Reach-Cared l r =
    let (c, same) = Reach-Shaped l r in
    record {
      safe = λ a h.
          let (l', d, shaped) =
            subst (λ x. Returns Shaped (act a x)) (sym same) (act-Shaped c a h) in
          (l', d, later r a h d);
      twice = λ cs.
          subst (λ x. Fatal x (act (event (closing ∷ closing ∷ cs)) x)) (sym same)
            (shape-twice c cs);
      revived =
          subst (λ x. Fatal x (act (event (closing ∷ keeping ∷ [])) x >>= act expiry)) (sym same)
            (shape-revived c);
      goes =
          subst
            (λ x.
              x.state ≡ k_disconnected
              → Returns (λ g. is_held g ≡ false) (act removal x >>= act task))
            (sym same) (shape-goes c);
      last = subst (λ x. is_held x ≡ false → x.state ≡ k_disconnected) (sym same) (shape-last c);
    }
