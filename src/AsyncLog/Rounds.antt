-- ===== src/AsyncLog/Rounds.antt =====
-- From a message to the log file: what append queues, and what a round of threadFunc writes.
use wserver.Prelude.{
  ℕ, ◌+◌, ◌≡◌, ◌≢◌, ◌<◌, ◌≤◌, ◌⊎◌, inl, inr, refl, sym, ap, ◌∙◌, true, false, none, some, List, [],
  ◌∷◌, ◌++◌, length, length-append, take, Exec, done, stop, null_deref, Returns, Bool-cases, ◌>>=◌,
  ltb, leb, append-nil, append_assoc, arith,
}
use wserver.LogStream.{strncpy}
use wserver.AsyncLog.{
  Pointer, AsyncLog, Backend, append_to, append_next, append, write_all, refill, first_of, left_of,
  collect, write_out, round,
}

abbrev pub somes : List (List ℕ) → List Pointer
somes [] = []
somes (b ∷ bs) = some b ∷ somes bs

abbrev pub joined : List (List ℕ) → List ℕ
joined [] = []
joined (b ∷ bs) = b ++ joined bs

-- The full buffers `bs`, the current buffer, and the next one, if it is not in use.
abbrev pub log : List (List ℕ) → List ℕ → Pointer → AsyncLog
log bs c nx = record { cur_buffer = some c; next_buffer = nx; buffers = somes bs }

abbrev pub pending : List (List ℕ) → List ℕ → List ℕ
pending bs c = joined bs ++ c

somes_last : (bs : List (List ℕ)) (c : List ℕ) → somes bs ++ some c ∷ [] ≡ somes (bs ++ c ∷ [])
somes_last [] c = refl
somes_last (b ∷ bs) c = ap (λ x. some b ∷ x) (somes_last bs c)

joined_last : (bs : List (List ℕ)) (c : List ℕ) → joined (bs ++ c ∷ []) ≡ joined bs ++ c
joined_last [] c = append-nil c
joined_last (b ∷ bs) c = ap (λ x. b ++ x) (joined_last bs c) ∙ sym (append_assoc b (joined bs) c)

write_all-somes :
    (bs : List (List ℕ)) (out : List ℕ) → write_all (somes bs) out ≡ done (out ++ joined bs)
unfolding write_all
write_all-somes [] out = ap done (sym (append-nil out))
write_all-somes (b ∷ bs) out =
    write_all-somes bs (out ++ b) ∙ ap done (append_assoc out b (joined bs))

length-somes : (bs : List (List ℕ)) → length (somes bs) ≡ length bs
length-somes [] = refl
length-somes (b ∷ bs) = omega (arith, length-somes bs)

-- What append leaves: the message, as strncpy copies it, is the last of what waits to be written.
pub record Queued (before msg : List ℕ) (s : AsyncLog) : Type 0 where
  pub full : List (List ℕ)
  pub current : List ℕ
  pub next : Pointer
  pub shape : s ≡ log full current next
  pub order : pending full current ≡ before ++ strncpy msg
  pub spare : next ≡ none → full ≢ []

not_nil : {A : Type 0} (xs : List A) (x : A) → xs ++ x ∷ [] ≢ []
not_nil [] x = λ e. cc
not_nil (y ∷ ys) x = λ e. cc

queue_here :
    (size : ℕ) (msg : List ℕ) (bs : List (List ℕ)) (c : List ℕ) (nx : Pointer)
    → (nx ≡ none → bs ≢ [])
    → leb (length c + length msg) size ≡ true
    → Returns (Queued (pending bs c) msg) (append size msg (log bs c nx))
unfolding append append_to
queue_here size msg bs c nx spare fits = rw fits (
  _,
  refl,
  record {
    full = bs;
    current = c ++ strncpy msg;
    next = nx;
    shape = refl;
    order = sym (append_assoc (joined bs) c (strncpy msg));
    spare = spare;
  },
)

pub append-full :
    (size : ℕ) (msg : List ℕ) (bs : List (List ℕ)) (c : List ℕ) (nx : Pointer)
    → leb (length c + length msg) size ≡ false
    → append size msg (log bs c nx) ≡ append_next size msg (log bs c nx)
unfolding append append_to
append-full size msg bs c nx full = rw full refl

queue_next :
    (size : ℕ) (msg : List ℕ) (bs : List (List ℕ)) (c : List ℕ)
    → leb (length c + length msg) size ≡ false
    → leb (length {A = ℕ} [] + length msg) size ≡ true
    → Returns (Queued (pending bs c) msg) (append size msg (log bs c (some [])))
unfolding append_next append_to
queue_next size msg bs c full fits = rw (append-full size msg bs c (some []) full) (
    rw fits (
      _,
      refl,
      record {
        full = bs ++ c ∷ [];
        current = strncpy msg;
        next = none;
        shape =
            ap (λ x. record { cur_buffer = some (strncpy msg); next_buffer = none; buffers = x })
              (somes_last bs c);
        order = ap (λ x. x ++ strncpy msg) (joined_last bs c);
        spare = λ e. not_nil bs c;
      },
    ))

-- append where the message fits into the current buffer, or where the next buffer is there and the
-- message fits into it: the call returns, the bytes that wait to be written are those that waited
-- and then the message, as strncpy copies it, and where the next buffer is in use a full one waits.
pub append-Queued :
    (size : ℕ) (msg : List ℕ) (bs : List (List ℕ)) (c : List ℕ) (nx : Pointer)
    → (nx ≡ none → bs ≢ [])
    → (length c + length msg ≤ size) ⊎ ((nx ≡ some []) × (length msg ≤ size))
    → Returns (Queued (pending bs c) msg) (append size msg (log bs c nx))
append-Queued size msg bs c nx spare room = elim (Bool-cases (leb (length c + length msg) size)) [
  | inl fits ↦ queue_here size msg bs c nx spare fits
  | inr full ↦ elim room [
    | inl h ↦ absurd (ground arith)
    | inr h ↦ rw h.0 (queue_next size msg bs c full (ground arith))
  ]
]

-- append where neither the current buffer has room for the message nor the next one is there: it makes
-- a next buffer, and then writes through the null pointer of the current one.
pub append-exhausted :
    (size : ℕ) (msg : List ℕ) (bs : List (List ℕ)) (c : List ℕ)
    → size < length c + length msg
    → append size msg (log bs c none) ≡ stop null_deref
unfolding append_next append_to
append-exhausted size msg bs c h = append-full size msg bs c none (ground arith) ∙ refl

take-somes :
    (bs : List (List ℕ)) (c : List ℕ)
    → bs ≢ []
    → (x : List ℕ) × (y : List ℕ) × (take 2 (somes (bs ++ c ∷ [])) ≡ some x ∷ some y ∷ [])
take-somes [] c n = absurd (n refl)
take-somes (b ∷ []) c n = (b, c, refl)
take-somes (b ∷ d ∷ bs) c n = (b, d, refl)

abbrev pub backend : List ℕ → Backend
backend out = record { new_buffer_1 = some []; new_buffer_2 = some []; output = out }

-- The two refills of a round, before any `f`, give both spare buffers back.
refills :
    (bs : List (List ℕ)) (c : List ℕ) (nx : Pointer) (f : Pointer → Pointer → Exec Backend)
    → (nx ≡ none → bs ≢ [])
    → (refill none (take 2 (somes (bs ++ c ∷ []))) >>= λ one.
        refill (left_of nx (some [])) one.1 >>= λ two. f one.0 two.0)
      ≡ f (some []) (some [])
unfolding refill
refills [] c none f spare = absurd (spare refl refl)
refills [] c (some n) f spare = refl
refills (b ∷ []) c none f spare = refl
refills (b ∷ []) c (some n) f spare = refl
refills (b ∷ d ∷ bs) c none f spare = refl
refills (b ∷ d ∷ bs) c (some n) f spare = refl

few :
    (bs : List (List ℕ)) (c : List ℕ)
    → length bs < 20
    → ltb 20 (length (somes (bs ++ c ∷ []))) ≡ false
few bs c h =
    let l = length-somes (bs ++ c ∷ []) in let m = length-append bs (c ∷ []) in ground (arith, l, m)

pub write_out-somes :
    (notice : List ℕ) (bs : List (List ℕ)) (c : List ℕ) (nx : Pointer) (out : List ℕ)
    → (nx ≡ none → bs ≢ [])
    → length bs < 20
    → write_out notice
        (somes bs ++ some c ∷ [])
        (record { new_buffer_1 = none; new_buffer_2 = left_of nx (some []); output = out })
      ≡ done (backend (out ++ pending bs c))
unfolding write_out
write_out-somes notice bs c nx out spare h =
    rw (somes_last bs c, few bs c h, write_all-somes (bs ++ c ∷ []) out, joined_last bs c)
      (refills bs c nx
        (λ one two.
          done (record { new_buffer_1 = one; new_buffer_2 = two; output = out ++ pending bs c }))
        spare)

-- A round of threadFunc with less than 20 full buffers, where one waits if the next buffer is in use:
-- the call returns, every byte that waited is written, in order and once, and both threads have their
-- spare buffers back.
pub round_correct :
    (notice : List ℕ) (bs : List (List ℕ)) (c : List ℕ) (nx : Pointer) (out : List ℕ)
    → (nx ≡ none → bs ≢ [])
    → length bs < 20
    → round notice (log bs c nx) (backend out)
      ≡ done (log [] [] (first_of nx (some [])), backend (out ++ pending bs c))
unfolding round collect
round_correct notice bs c nx out spare h = rw (write_out-somes notice bs c nx out spare h) refl
