-- ===== src/Epoll/Restored.antt =====
-- A new channel that is registered and then retired: the epoll is as it was before.
use wserver.Prelude.{
  ℕ, ◌≡◌, ◌≢◌, refl, sym, ap, subst, ◌∙◌, inl, inr, Bool, Bool-cases, true, Option, none, some,
  done, ◌==◌, if◌then◌else◌, arith,
}
use wserver.Channel.{Channel, Index, k_new, k_added, k_deleted}
use wserver.Epoll.{Kernel, Epoll, update_channel}
use wserver.Epoll.Registration.{
  Held, interest, Updated, Retired, retire, update_channel_correct, retire_correct,
}

module _ (k : Kernel) where
  -- Two epolls with the same entries and the same registrations.
  pub record Alike (e e' : Epoll k) : Type 0 where
    pub channels : (j : ℕ) → e'.channels j ≡ e.channels j
    pub registered : (j : ℕ) → k.registered e'.kernel j ≡ k.registered e.kernel j

  -- A channel that is registered is dropped when its last event goes.
  pub dropped :
      (i : Index) (ev id v : ℕ) (reg entry : Option ℕ)
      → Held i ev id reg entry
      → reg ≡ some v
      → interest i 0 ≡ none
  dropped k_new ev id v reg entry h e = absurd (cc (h.0, e))
  dropped k_added ev id v reg entry h e = refl
  dropped k_deleted ev id v reg entry h e = absurd (cc (h.0, e))

  Retired-Alike :
      (address ev : ℕ) (c : Channel) (e : Epoll k) (r q : Channel × Epoll k)
      → k.registered e.kernel c.fd ≡ none
      → e.channels c.fd ≡ none
      → Updated k address ev (record c { index = k_new }) e r
      → Retired k address r.0 r.1 q
      → Alike e q.1
  Retired-Alike address ev c e r q n m u d = record {
    channels = λ j. elim (Bool-cases (c.fd == j)) [
      | inl h ↦
          let same : c.fd ≡ j = ground (arith, h) in
          subst (λ x. q.1.channels x ≡ e.channels x) same
            (subst (λ x. q.1.channels x ≡ none) u.fd d.entry ∙ sym m)
      | inr h ↦
          let other : c.fd ≢ j = λ x. ground (arith, h, x) in
          d.others j (subst (λ x. x ≢ j) (sym u.fd) other) ∙ u.others j other
    ];
    registered = λ j.
        subst
          (λ x.
            k.registered q.1.kernel j
            ≡ (if x == j then interest r.0.index 0 else k.registered r.1.kernel j))
          u.fd (d.registered j)
        ∙ elim (Bool-cases (c.fd == j)) [
          | inl h ↦
              let same : c.fd ≡ j = ground (arith, h) in
              rw h (gone ∙ sym n ∙ ap (λ x. k.registered e.kernel x) same)
          | inr h ↦ rw h (at j h)
        ];
  }
    where
      at :
          (j : ℕ) {t : Bool}
          → (c.fd == j) ≡ t
          → k.registered r.1.kernel j ≡ (if t then some ev else k.registered e.kernel j)
      at j h =
          subst (λ x. k.registered r.1.kernel j ≡ (if x then some ev else k.registered e.kernel j))
            h (u.registered j)

      gone : interest r.0.index 0 ≡ none
      gone =
          dropped r.0.index r.0.events address ev _ _ u.tracks
            (ap (λ x. k.registered r.1.kernel x) u.fd ∙ at c.fd {t = true} (ground arith))

  -- updateChannel of a new channel whose descriptor is in neither table, and then disableAll and
  -- remove: both return, and the epoll is as it was before.
  pub retire-update_channel :
      (address ev : ℕ) (c : Channel) (e : Epoll k)
      → k.registered e.kernel c.fd ≡ none
      → e.channels c.fd ≡ none
      → (r : Channel × Epoll k) × (update_channel k address
            (record c { index = k_new; events = ev })
            e
          ≡ done r)
        × ((q : Channel × Epoll k) × (retire k address r.0 r.1 ≡ done q) × Alike e q.1)
  retire-update_channel address ev c e n m =
      let (r, updated, u) =
        update_channel_correct k address ev (record c { index = k_new }) e (n, m) in
      let (q, retired, d) = retire_correct k address r.0 r.1 u.tracks in
      (r, updated, (q, retired, Retired-Alike address ev c e r q n m u d))
