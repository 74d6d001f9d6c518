-- ===== src/Epoll.antt =====
-- Epoll.h and Epoll.cpp: the channels of a loop and their registration with the kernel.
-- A Channel* is a number, its address. The kernel's side of epoll_ctl is the parameter `Kernel`.
pub mod Registration
pub mod Restored
pub mod Table
mod Tests
use wserver.Prelude.{
  ℕ, ◌*◌, ◌≡◌, ◌≤◌, Bool, true, false, ◌&&◌, Option, none, some, List, [], ◌∷◌, length, Exec, done,
  stop, fatal, ◌>>=◌, ◌==◌, if◌then◌else◌,
}
use wserver.Channel.{Channel, Index, k_new, k_added, k_deleted, is_none_event}

pub data CtlOp : Type 0 where
  ctl_add ctl_mod ctl_del : CtlOp

-- epoll_ctl(2) on one epoll descriptor, for open descriptors and while memory lasts: a descriptor is
-- added if it is not registered, changed or removed if it is, and no other one is touched.
pub record Kernel : Type 1 where
  pub State : Type 0
  pub registered : State → ℕ → Option ℕ
  pub ctl : CtlOp → ℕ → ℕ → State → Bool × State
  pub add_succeeds :
      (s : State) (fd ev : ℕ) → registered s fd ≡ none → (ctl ctl_add fd ev s).0 ≡ true
  pub add_registers :
      (s : State) (fd ev j : ℕ)
      → registered s fd ≡ none
      → registered (ctl ctl_add fd ev s).1 j ≡ (if fd == j then some ev else registered s j)
  pub mod_succeeds :
      (s : State) (fd ev old : ℕ) → registered s fd ≡ some old → (ctl ctl_mod fd ev s).0 ≡ true
  pub mod_registers :
      (s : State) (fd ev old j : ℕ)
      → registered s fd ≡ some old
      → registered (ctl ctl_mod fd ev s).1 j ≡ (if fd == j then some ev else registered s j)
  pub del_succeeds :
      (s : State) (fd ev old : ℕ) → registered s fd ≡ some old → (ctl ctl_del fd ev s).0 ≡ true
  pub del_registers :
      (s : State) (fd ev old j : ℕ)
      → registered s fd ≡ some old
      → registered (ctl ctl_del fd ev s).1 j ≡ (if fd == j then none else registered s j)

-- `m_channels` maps a descriptor to the address of its channel; `capacity` is `m_events.size()`.
pub record Epoll (k : Kernel) : Type 0 where
  pub channels : ℕ → Option ℕ
  pub capacity : ℕ
  pub kernel : k.State

-- What epoll_wait gives: the addresses and the events that are ready, no more than there is room
-- for, or an error.
pub data WaitResult : Type 0 where
  ready : List (ℕ × ℕ) → WaitResult
  wait_failed : WaitResult

abbrev pub k_init_event_list_size : ℕ
k_init_event_list_size = 16

abbrev pub is_some : Option ℕ → ℕ → Bool
is_some none a = false
is_some (some b) a = b == a

abbrev pub put : (ℕ → Option ℕ) → ℕ → Option ℕ → ℕ → Option ℕ
put m fd v j = if fd == j then v else m j

module _ (k : Kernel) where
  -- Epoll::update: a failure to add or to change is fatal, one to remove is logged.
  unfoldable pub update : CtlOp → Channel → Epoll k → Exec (Epoll k)
  update op c e =
      let r = k.ctl op c.fd c.events e.kernel in
      let e' = record e { kernel = r.1 } in
      if r.0 then done e' else elim op [ ctl_del ↦ done e' | _ ↦ stop fatal ]

  -- updateChannel; the checks of `m_channels` only log.
  unfoldable pub update_channel : ℕ → Channel → Epoll k → Exec (Channel × Epoll k)
  update_channel id c e = elim c.index [
    | k_new ↦ do
      let c' = record c { index = k_added }
      e' ← update ctl_add c' (record e { channels = put e.channels c.fd (some id) })
      done (c', e')
    | k_deleted ↦ do let c' = record c { index = k_added }; e' ← update ctl_add c' e; done (c', e')
    | k_added ↦
        let drop : Exec (Channel × Epoll k) = do
          e' ← update ctl_del c e
          done (record c { index = k_deleted }, e')
        in let change : Exec (Channel × Epoll k) = do e' ← update ctl_mod c e; done (c, e')
          in if is_none_event c then drop else change
  ]

  unfoldable pub remove_channel : ℕ → Channel → Epoll k → Exec (Channel × Epoll k)
  remove_channel id c e =
      let erased = record e { channels = put e.channels c.fd none } in
      let c' = record c { index = k_new } in
      if is_some (e.channels c.fd) id && is_none_event c
      then elim c.index [
        | k_added ↦ (do e' ← update ctl_del c erased; done (c', e'))
        | k_deleted ↦ done (c', erased)
        | k_new ↦ done (c, e)
      ]
      else done (c, e)

  -- poll: the active channels with their events; a full list makes room for twice as many.
  unfoldable pub poll : Epoll k → WaitResult → Epoll k × List (ℕ × ℕ)
  poll e (ready active) = (
    record e { capacity = if length active == e.capacity then e.capacity * 2 else e.capacity },
    active,
  )
  poll e wait_failed = (e, [])

  -- Channel::remove: the index is set before the loop's removeChannel is called.
  unfoldable pub remove : ℕ → Channel → Epoll k → Exec (Channel × Epoll k)
  remove id c e = remove_channel id (record c { index = k_deleted }) e
