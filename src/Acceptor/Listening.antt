-- ===== src/Acceptor/Listening.antt =====
-- Acceptor.h and Acceptor.cpp: the channel of the acceptor, from its constructor to its destructor.
-- bind(2) and listen(2) on the socket only log their errors. `address` is that of the channel.
use wserver.Prelude.{ℕ, ◌≡◌, refl, Bool, true, false, none, Exec, done, ◌>>=◌, Returns}
use wserver.Channel
use wserver.Channel.{Channel, Index, k_new, k_added, k_deleted, k_read_event, enable_reading}
use wserver.Epoll.{Kernel, Epoll, update_channel}
use wserver.Epoll.Restored.{Alike, retire-update_channel}
use wserver.Epoll.Registration.{retire}

pub record Acceptor : Type 0 where
  pub address : ℕ
  pub channel : Channel
  pub listenning : Bool

unfoldable pub new : ℕ → ℕ → Acceptor
new address fd = record {
  address = address;
  channel = record (Channel.new fd) { read_handler = true };
  listenning = false;
}

module _ (k : Kernel) where
  unfoldable pub listen : Acceptor → Epoll k → Exec (Acceptor × Epoll k)
  unfolding enable_reading
  listen a e = do
    r ← update_channel k a.address (enable_reading a.channel) e
    done (record a { channel = r.0; listenning = true }, r.1)

  -- The destructor: disableAll and remove.
  unfoldable pub destroy : Acceptor → Epoll k → Exec (Epoll k)
  destroy a e = do r ← retire k a.address a.channel e; done r.1

  -- An acceptor with a new descriptor that has listened and is destroyed: both calls return, and the
  -- epoll is as it was before.
  pub destroy-listen :
      (address fd : ℕ) (e : Epoll k)
      → k.registered e.kernel fd ≡ none
      → e.channels fd ≡ none
      → Returns (Alike k e) (listen (new address fd) e >>= λ r. destroy r.0 r.1)
  unfolding new listen destroy Channel.new
  destroy-listen address fd e n m =
      let (r, updated, (q, retired, alike)) =
        retire-update_channel k address k_read_event
          (record (Channel.new fd) { read_handler = true }) e n m in
      rw (updated, retired) (q.1, refl, alike)
