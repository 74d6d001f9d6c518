-- ===== src/TcpServer/Table.antt =====
-- The map of connections, and the tasks of the loops, against the abstract server.
use mathlib.Core.Option
use native.Mathlib.Nat.{mod-add-mod}
use wserver.Prelude.{
  ℕ, ◌+◌, ◌-◌, ◌^◌, ◌%◌, ◌==◌, ◌<◌, ◌≤◌, ◌≡◌, inl, inr, refl, sym, ap, ◌∙◌, true, false, Option,
  none, some, List, [], ◌∷◌, ◌++◌, length, get_elem?, append_assoc, ltb, Bool-cases, Returns,
  Returns-bind, arith,
}
use wserver.EventLoopThreadPool.{get_next_loop}
use wserver.TcpServer.{
  Conn, Task, TcpServer, conn_name, put, erase, find, new_connection, remove_connection_in_loop,
}
use wserver.TcpServer.Names.{find-put, find-erase, bytes_eq-conn_name}
use wserver.TcpServer.Ledger.{
  Event, accepted, closed, accepts, Ids, opened, dropped, Told, Ledger, update, close, close-next,
  happen, replay, drop_found, serve, conn, task, tasks, tasks-append,
}

module _ (loop_of : ℕ → ℕ) (before : List (ℕ × Task)) where
  -- The server's map, pool and tasks are those of the ledger.
  pub record Represents (s : TcpServer) (l : Ledger) : Type 0 where
    pub ids : s.next_conn_id ≡ l.next
    pub turns : s.pool.next ≡ l.turn % length s.pool.loops
    pub loops : (k : ℕ) → get_elem? s.pool.loops (k % length s.pool.loops) ≡ some (loop_of k)
    pub entries :
        (i : ℕ)
        → i < 2 ^ 31
        → find (conn_name s.name i) s.connections ≡ Option.map (conn s.name i) (l.entry i)
    pub fresh : (i : ℕ) → l.next ≤ i → l.entry i ≡ none
    pub posted : s.posted ≡ before ++ tasks s.name l.told

  posted-one :
      (name : List ℕ) (posted : List (ℕ × Task)) (told : List (ℕ × Told)) (t : ℕ × Told)
      → posted ≡ before ++ tasks name told
      → posted ++ task name t ∷ [] ≡ before ++ tasks name (told ++ t ∷ [])
  posted-one name posted told t e =
      ap (λ p. p ++ task name t ∷ []) e
      ∙ append_assoc before (tasks name told) (task name t ∷ [])
      ∙ ap (λ r. before ++ r) (sym (tasks-append name told (t ∷ [])))

  -- What Represents says of the entries, after a change of the one entry.
  put_entries :
      (name : List ℕ) (cs : List Conn) (entry : ℕ → Option (ℕ × ℕ)) (j : ℕ) (c : ℕ × ℕ)
      → j < 2 ^ 31
      → ((i : ℕ) → i < 2 ^ 31 → find (conn_name name i) cs ≡ Option.map (conn name i) (entry i))
      → (i : ℕ) → i < 2 ^ 31
      → find (conn_name name i) (put (conn name j c) cs)
        ≡ Option.map (conn name i) (update entry j (some c) i)
  put_entries name cs entry j c b all i h =
      find-put (conn name j c) (conn_name name i) cs
      ∙ rw (bytes_eq-conn_name name j i b h) (elim (Bool-cases (j == i)) [
        | inl e ↦ let same : j ≡ i = ground (arith, e) in rw e (rw same refl)
        | inr e ↦ rw e (all i h)
      ])

  erase_entries :
      (name : List ℕ) (cs : List Conn) (entry : ℕ → Option (ℕ × ℕ)) (j : ℕ)
      → j < 2 ^ 31
      → ((i : ℕ) → i < 2 ^ 31 → find (conn_name name i) cs ≡ Option.map (conn name i) (entry i))
      → (i : ℕ) → i < 2 ^ 31
      → find (conn_name name i) (erase (conn_name name j) cs)
        ≡ Option.map (conn name i) (update entry j none i)
  erase_entries name cs entry j b all i h =
      find-erase (conn_name name j) (conn_name name i) cs
      ∙ rw (bytes_eq-conn_name name j i b h)
          (elim (Bool-cases (j == i)) [ inl e ↦ rw e refl | inr e ↦ rw e (all i h) ])

  pub accepted_one :
      (s : TcpServer) (l : Ledger) (fd : ℕ)
      → Represents s l
      → l.next < 2 ^ 31 - 1
      → Returns (λ s'. Represents s' (happen loop_of (accepted fd) l)) (new_connection fd s)
  unfolding new_connection get_next_loop
  accepted_one s l fd r h = rw (bound) (
      rw taken (
        _,
        refl,
        record {
          ids = ap (λ n. n + 1) r.ids;
          turns =
              ap (λ n. (n + 1) % length s.pool.loops) r.turns
              ∙ mod-add-mod l.turn (length s.pool.loops) 1;
          loops = r.loops;
          entries = λ i b.
              put_entries s.name s.connections l.entry s.next_conn_id (fd, loop_of l.turn)
                (omega (arith, r.ids)) r.entries i b
              ∙ ap
                  (λ n. Option.map (conn s.name i) (update l.entry n (some (fd, loop_of l.turn)) i))
                  r.ids;
          fresh = λ i b.
              (let other : (l.next == i) ≡ false = ground arith in
                rw other (r.fresh i (omega arith)));
          posted =
              posted-one s.name s.posted l.told (loop_of l.turn, opened s.next_conn_id fd) r.posted
              ∙ ap (λ n. before ++ tasks s.name (l.told ++ (loop_of l.turn, opened n fd) ∷ []))
                  r.ids;
        },
      ))
    where
      bound : ltb s.next_conn_id (2 ^ 31 - 1) ≡ true
      bound = ground (arith, r.ids)

      taken : get_elem? s.pool.loops s.pool.next ≡ some (loop_of l.turn)
      taken = ap (get_elem? s.pool.loops) r.turns ∙ r.loops l.turn

  pub dropped_one :
      (s : TcpServer) (l : Ledger) (i : ℕ) (o : Option (ℕ × ℕ))
      → Represents s l
      → i < 2 ^ 31
      → Represents (drop_found (Option.map (conn s.name i) o) s) (close i o l)
  unfolding remove_connection_in_loop
  dropped_one s l i none r h = r
  dropped_one s l i (some (fd, loop)) r h = record {
    ids = r.ids;
    turns = r.turns;
    loops = r.loops;
    entries = λ k b. erase_entries s.name s.connections l.entry i h r.entries k b;
    fresh = λ k b. elim (Bool-cases (i == k)) [ inl e ↦ rw e refl | inr e ↦ rw e (r.fresh k b) ];
    posted = posted-one s.name s.posted l.told (loop, dropped i fd) r.posted;
  }

  -- The server, started as the ledger says, accepts connections while the int of the ids has room,
  -- and connections close, each id below 2 ^ 31: it does not stop, and is again as the ledger says,
  -- on which the same events have happened. Every id is used once; an accepted descriptor has the
  -- entry of its id, and no other, until that id closes; and each loop is told of its own
  -- connections, in the order in which they are opened and dropped.
  pub serve-Represents :
      (es : List Event) (s : TcpServer) (l : Ledger)
      → Represents s l
      → l.next + accepts es < 2 ^ 31
      → Ids es
      → Returns (λ s'. Represents s' (replay loop_of es l)) (serve es s)
  serve-Represents [] s l r h b = (_, refl, r)
  serve-Represents (accepted fd ∷ es) s l r h b =
      Returns-bind (λ s'. Represents s' (happen loop_of (accepted fd) l)) _ (new_connection fd s) _
        (accepted_one s l fd r (omega arith)) λ s' r'. serve-Represents es s' _ r' (omega arith) b
  serve-Represents (closed i ∷ es) s l r h b =
      serve-Represents es _ _ (rw (r.entries i b.0) (dropped_one s l i (l.entry i) r b.0))
        (omega (arith, close-next i (l.entry i) l)) b.1
