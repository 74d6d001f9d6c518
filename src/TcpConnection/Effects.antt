-- ===== src/TcpConnection/Effects.antt =====
-- What a list of requests amounts to: how often the server was told, and the bytes on the wire.
use wserver.Prelude.{
  ℕ, suc, ◌+◌, ◌≡◌, refl, sym, ap, ◌∙◌, Bool, true, false, not, ◌&&◌, List, [], ◌∷◌, ◌++◌, arith,
  append_assoc, append-nil,
}
use wserver.HttpContext.{is_keep_alive}
use wserver.Epoll.{Kernel}
use wserver.TcpConnection.{
  Effect, sent, shutdown_write, close_after, close_callback, queue_shutdown, TcpConnection, keep,
}
use wserver.TcpConnection.Close.{farewell}

-- How often the server was told that the connection is closed.
abbrev pub closings : List Effect → ℕ
closings [] = 0
closings (close_callback ∷ xs) = suc (closings xs)
closings (_ ∷ xs) = closings xs

pub closings-append : (xs ys : List Effect) → closings (xs ++ ys) ≡ closings xs + closings ys
closings-append [] ys = omega arith
closings-append (close_callback ∷ xs) ys = omega (arith, closings-append xs ys)
closings-append (sent s ∷ xs) ys = closings-append xs ys
closings-append (shutdown_write ∷ xs) ys = closings-append xs ys
closings-append (close_after s ∷ xs) ys = closings-append xs ys
closings-append (queue_shutdown ∷ xs) ys = closings-append xs ys

-- The bytes that were written to the socket.
abbrev pub wire : List Effect → List ℕ
wire [] = []
wire (sent s ∷ xs) = s ++ wire xs
wire (_ ∷ xs) = wire xs

pub wire-append : (xs ys : List Effect) → wire (xs ++ ys) ≡ wire xs ++ wire ys
wire-append [] ys = refl
wire-append (sent s ∷ xs) ys =
    ap (λ x. s ++ x) (wire-append xs ys) ∙ sym (append_assoc s (wire xs) (wire ys))
wire-append (close_callback ∷ xs) ys = wire-append xs ys
wire-append (shutdown_write ∷ xs) ys = wire-append xs ys
wire-append (close_after s ∷ xs) ys = wire-append xs ys
wire-append (queue_shutdown ∷ xs) ys = wire-append xs ys

-- What marking a connection as kept leaves.
pub record Kept (t t' : TcpConnection) : Type 0 where
  pub context : t'.context ≡ t.context
  pub state : t'.state ≡ t.state
  pub address : t'.address ≡ t.address
  pub channel : t'.channel ≡ t.channel
  pub told : closings t'.effects ≡ closings t.effects
  pub wire : wire t'.effects ≡ wire t.effects

pub keep-Kept : (t : TcpConnection) → Kept t (keep t)
unfolding keep
keep-Kept t = go (not t.alive && is_keep_alive t.context) refl
  where
    go : (b : Bool) → (not t.alive && is_keep_alive t.context) ≡ b → Kept t (keep t)
    go true e = rw e (record {
      context = refl;
      state = refl;
      address = refl;
      channel = refl;
      told = closings-append t.effects (close_after 300 ∷ []) ∙ omega arith;
      wire = wire-append t.effects (close_after 300 ∷ []) ∙ append-nil (wire t.effects);
    })
    go false e = rw e (record {
      context = refl;
      state = refl;
      address = refl;
      channel = refl;
      told = refl;
      wire = refl;
    })

pub closings-farewell : (k : Kernel) (alive : Bool) → closings (farewell k alive) ≡ 1
closings-farewell k true = refl
closings-farewell k false = refl

pub wire-farewell : (k : Kernel) (s : List ℕ) (alive : Bool) → wire (sent s ∷ farewell k alive) ≡ s
wire-farewell k s true = append-nil s
wire-farewell k s false = append-nil s
