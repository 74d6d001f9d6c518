-- ===== src/AsyncLog/System/Held.antt =====
-- The buffers that either side can hold, and what append and threadFunc make of them.
use wserver.Prelude.{
  ℕ, ◌+◌, ◌≡◌, refl, sym, ap, ◌∙◌, inl, inr, true, false, none, some, List, [], ◌∷◌, ◌++◌, length,
  done, stop, out_of_bounds, leb, Bool-cases, append-nil, append_assoc, arith,
}
use wserver.LogStream.{strncpy}
use wserver.AsyncLog.{
  Pointer, AsyncLog, Backend, append_to, append_next, append, collect, write_out,
}
use wserver.AsyncLog.Rounds.{log, pending, backend, append-full, append-exhausted, write_out-somes}

-- The buffers with messages that either side holds: the current one, or a full one before it.
pub data Held : Type 0 where
  one : List ℕ → Held
  two : List ℕ → List ℕ → Held

abbrev pub bytes_of : Held → List ℕ
bytes_of (one c) = pending [] c
bytes_of (two d c) = pending (d ∷ []) c

-- The shared buffers; the next one is there exactly when no full one waits.
abbrev pub shared_of : Held → AsyncLog
shared_of (one c) = log [] c (some [])
shared_of (two d c) = log (d ∷ []) c none

-- What the back end has taken, and the spare buffers that it has left.
abbrev pub taken_of : Held → List Pointer
taken_of (one c) = some c ∷ []
taken_of (two d c) = some d ∷ some c ∷ []

abbrev pub spare_of : Held → Pointer
spare_of (one c) = some []
spare_of (two d c) = none

abbrev pub own_of : Held → List ℕ → Backend
own_of h out = record { new_buffer_1 = none; new_buffer_2 = spare_of h; output = out }

pub done_inj : {A : Type 0} {x y : A} → done x ≡ done y → x ≡ y
done_inj e = cc

append-here :
    (size : ℕ) (msg : List ℕ) (bs : List (List ℕ)) (c : List ℕ) (nx : Pointer)
    → leb (length c + length msg) size ≡ true
    → append size msg (log bs c nx) ≡ done (log bs (c ++ strncpy msg) nx)
unfolding append append_to
append-here size msg bs c nx e = rw e refl

append_next-fits :
    (size : ℕ) (msg c : List ℕ)
    → leb (length {A = ℕ} [] + length msg) size ≡ true
    → append_next size msg (log [] c (some [])) ≡ done (log (c ∷ []) (strncpy msg) none)
unfolding append_next append_to
append_next-fits size msg c e = rw e refl

append_next-large :
    (size : ℕ) (msg c : List ℕ)
    → leb (length {A = ℕ} [] + length msg) size ≡ false
    → append_next size msg (log [] c (some [])) ≡ stop out_of_bounds
unfolding append_next append_to
append_next-large size msg c e = rw e refl

-- A call of append that returns has put the message, as strncpy copies it, behind the bytes that wait.
pub append-shared :
    (size : ℕ) (msg : List ℕ) (h : Held) (l : AsyncLog)
    → append size msg (shared_of h) ≡ done l
    → (k : Held) × (l ≡ shared_of k) × (bytes_of k ≡ bytes_of h ++ strncpy msg)
append-shared size msg (one c) l e = elim (Bool-cases (leb (length c + length msg) size)) [
  | inl here ↦
      (one (c ++ strncpy msg), done_inj (sym e ∙ append-here size msg [] c (some []) here), refl)
  | inr full ↦ elim (Bool-cases (leb (length {A = ℕ} [] + length msg) size)) [
    | inl fits ↦ (
      two c (strncpy msg),
      done_inj
          (sym e ∙ append-full size msg [] c (some []) full ∙ append_next-fits size msg c fits),
      ap (λ x. x ++ strncpy msg) (append-nil c),
    )
    | inr large ↦
        let stops = append-full size msg [] c (some []) full ∙ append_next-large size msg c large in
        absurd (cc (stops, e))
  ]
]
append-shared size msg (two d c) l e = elim (Bool-cases (leb (length c + length msg) size)) [
  | inl here ↦ (
    two d (c ++ strncpy msg),
    done_inj (sym e ∙ append-here size msg (d ∷ []) c none here),
    sym (append_assoc (d ++ []) c (strncpy msg)),
  )
  | inr full ↦
      let stops = append-exhausted size msg (d ∷ []) c (ground (arith, full)) in
      absurd (cc (stops, e))
]

pub write_out-taken :
    (notice : List ℕ) (f : Held) (out : List ℕ)
    → write_out notice (taken_of f) (own_of f out) ≡ done (backend (out ++ bytes_of f))
write_out-taken notice (one c) out =
    write_out-somes notice [] c (some []) out (λ e. cc) (omega arith)
write_out-taken notice (two d c) out =
    write_out-somes notice (d ∷ []) c none out (λ e f. cc) (omega arith)

pub collect-shared :
    (h : Held) (out : List ℕ)
    → collect (shared_of h) (backend out) ≡ (shared_of (one []), (own_of h out, taken_of h))
unfolding collect
collect-shared (one c) out = refl
collect-shared (two d c) out = refl
